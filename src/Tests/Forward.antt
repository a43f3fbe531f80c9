-- ===== src/Tests/Forward.antt =====
-- The forward discovery mode on a few events: a remote Writer comes and goes, and its plugin joins and
-- leaves.
use zenoh_plugin_dds.Base.{ℕ, refl, ◌≡◌, Bool, true, false, Option, none, some, List, [], ◌∷◌}
use zenoh_plugin_dds.Base.Tests.{Ensures, length, ◌>>=◌}
use zenoh_plugin_dds.Base.Int.{pos}
use zenoh_plugin_dds.Base.Text.{Str, codes, str_eq, contains, starts_with}
use zenoh_plugin_dds.Base.Map.{Map}
use zenoh_plugin_dds.Base.Map
use zenoh_plugin_dds.Base.Set
use zenoh_plugin_dds.Config.{Config}
use zenoh_plugin_dds.Entity.{discovered_publication, discovered_subscription}
use zenoh_plugin_dds.Keyexpr.{fwd_entity_key}
use zenoh_plugin_dds.Ros.Info.{RosCodec}
use zenoh_plugin_dds.Ros.Manager.Handles.{mgr_holds}
use zenoh_plugin_dds.Route.ToDds.{
  RouteZenohDds, subscriber, has_remote_routed_writer, remove_remote_routed_writers_containing,
}
use zenoh_plugin_dds.Plugin.{start}
use zenoh_plugin_dds.Plugin.Account.{IsAccounted}
use zenoh_plugin_dds.Plugin.Admin.{admin_answers}
use zenoh_plugin_dds.Plugin.Admin.Reached.{dangling_refs}
use zenoh_plugin_dds.Plugin.Fwd.{Fwd, Codec}
use zenoh_plugin_dds.Plugin.Fwd.Group.{on_member_left, admin_subke, leave_to_dds}
use zenoh_plugin_dds.Plugin.Fwd.Loop.{
  FwdEvent, discovery, forwarded, member_joined, ros_disco_timer, fwd_run, fwd_start,
}
use zenoh_plugin_dds.Plugin.Fwd.Leaks.{fwd_run-IsAccounted}
use zenoh_plugin_dds.Plugin.Fwd.Served.{fwd_run-admin_answers}
use zenoh_plugin_dds.Plugin.Fwd.Writers.{NeverNull}
use zenoh_plugin_dds.Plugin.Fwd.Used.{AreUsed}
use zenoh_plugin_dds.Plugin.Fwd.Reached.{fwd_run-AreUsed}
use zenoh_plugin_dds.Plugin.Fwd.Leave.{LeftToDds, LeftFromDds, on_member_left-routes}
use zenoh_plugin_dds.Tests.{concrete, chatter, settings, plain_qos}
use zenoh_plugin_dds.Tests.Graphs.{plain_hex}

abbrev pub ros_codec : RosCodec
ros_codec = record {
  hex = plain_hex;
  cdr_serialize = λ info. some info.gid;
  cdr_deserialize = λ payload. some (record { gid = payload; node_entities_info_seq = [] });
  default_qos = plain_qos;
  dds_infinite_time = pos 1000;
}

-- The payload of an advertisement is the key of the entity.
abbrev pub codec : Codec
codec = record {
  serialize = λ e scope. some e.key;
  deserialize = λ payload. some (chatter payload, none);
  ros = ros_codec;
}

abbrev pub forwarding : Config
forwarding = record settings { forward_discovery = true }

abbrev remote_writer : Option Str → FwdEvent
remote_writer payload = forwarded (record {
  key_expr = fwd_entity_key concrete (codes "cd") none true (codes "participant/01/writer/33");
  payload = payload;
})

abbrev events : List FwdEvent
events =
    discovery (discovered_publication (chatter (codes "11")))
    ∷ discovery (discovered_subscription (chatter (codes "22")))
    ∷ member_joined (codes "cd")
    ∷ remote_writer (some (codes "33"))
    ∷ ros_disco_timer []
    ∷ remote_writer none
    ∷ remote_writer (some (codes "44"))
    ∷ []

abbrev started : Option Fwd
started = fwd_start concrete codec forwarding (codes "ab") (pos 1) []

-- The sizes of the maps after the events, and the number of calls made.
abbrev sizes : List FwdEvent → Option (List ℕ)
sizes es = started >>= λ f. fwd_run concrete codec es f >>= λ f'. some (
    length f'.plugin.routes_from_dds
    ∷ length f'.plugin.routes_to_dds
    ∷ length f'.plugin.admin_space
    ∷ length f'.plugin.world
    ∷ [])

-- 0 routes from DDS, 4 to DDS, 8 entries of the admin space and 22 calls.
abbrev sizes_run : Option (List ℕ)
sizes_run = sizes events

fwd_run-IsAccounted_example :
    Ensures
      (λ f.
        Ensures
          (λ f'. IsAccounted (mgr_holds (pos 3) f.ros_disco_mgr) (pos 3) f'.plugin)
          (fwd_run concrete codec events f))
      started
fwd_run-IsAccounted_example =
    fwd_run-IsAccounted concrete codec 2 forwarding (codes "ab") (pos 1) events

-- DDS gives positive handles.
pub never_null : NeverNull concrete
never_null w dp t qos = λ e. cc

fwd_run-AreUsed_example :
    Ensures (λ f. Ensures (λ f'. AreUsed f'.plugin) (fwd_run concrete codec events f)) started
fwd_run-AreUsed_example =
    fwd_run-AreUsed concrete codec never_null forwarding (codes "ab") (pos 1) [] events

-- Every local endpoint of the run belongs to one participant and one topic.
abbrev place : Bool → Str → Str × Str
place is_writer key = (codes "01", codes "rt/chatter")

fwd_run-admin_answers_example :
    Ensures
      (λ f.
        Ensures
          (λ f'.
            dangling_refs (admin_answers str_eq f'.plugin (codes "version" ∷ codes "*" ∷ [])) ≡ [])
          (fwd_run concrete codec events f))
      started
fwd_run-admin_answers_example =
    fwd_run-admin_answers concrete codec place forwarding (codes "ab") (pos 1) [] events
      ((refl, refl), ((refl, refl), tt)) str_eq (codes "version" ∷ codes "*" ∷ [])

-- A state with one route to DDS, for a local Reader and a remote Writer.
abbrev pub one_route : RouteZenohDds
one_route = record {
  zenoh_subscriber = subscriber (codes "rt/chatter");
  topic_name = codes "rt/chatter";
  topic_type = codes "String";
  keyless = true;
  dds_writer = pos 7;
  remote_routed_writers = codes "@/cd/dds/participant/01/writer/33" ∷ [];
  local_routed_readers = codes "22" ∷ [];
}

abbrev pub one_fwd : Fwd
one_fwd = record {
  plugin = record (start forwarding (codes "ab") (pos 1) []) {
    routes_to_dds = (codes "rt/chatter", one_route) ∷ [];
  };
  participant_info = record { gid = codes "0a"; node_entities_info_seq = [] };
  ros_disco_mgr = record { reader = pos 2; writer = pos 3 };
}

on_member_left-routes_example :
    LeftToDds
      (admin_subke concrete codec (codes "cd"))
      (Map.get (codes "rt/chatter") one_fwd.plugin.routes_to_dds)
      (Map.get
        (codes "rt/chatter")
        (on_member_left concrete codec (codes "cd") one_fwd).plugin.routes_to_dds)
    × LeftFromDds
        (admin_subke concrete codec (codes "cd"))
        (Map.get (codes "rt/chatter") one_fwd.plugin.routes_from_dds)
        (Map.get
          (codes "rt/chatter")
          (on_member_left concrete codec (codes "cd") one_fwd).plugin.routes_from_dds)
unfolding start Map.get
on_member_left-routes_example =
    on_member_left-routes concrete codec (codes "cd") one_fwd (codes "rt/chatter") (refl, tt) tt

-- The local Reader has lost its route.
one_route_lost :
    (leave_to_dds concrete codec
      (codes "cd")
      (codes "rt/chatter")
      one_route
      ([], ([], (one_fwd.participant_info, false)))).0
    ≡ none
unfolding has_remote_routed_writer remove_remote_routed_writers_containing Set.keep_if contains
    starts_with
one_route_lost = refl
