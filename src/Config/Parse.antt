-- ===== src/Config/Parse.antt =====
-- zenoh-plugin-dds/src/config.rs: the deserializers of the configuration's fields. A `Value` is what serde
-- hands to a visitor; the compilation of a regex and the parsing of numbers are parameters.
use zenoh_plugin_dds.Base.{
  ℕ, ◌≡◌, refl, Bool, true, Option, none, some, List, [], ◌∷◌, ◌++◌, map, arith,
}
use zenoh_plugin_dds.Base.Tests.{Result, ok, err, if◌then◌else◌}
use zenoh_plugin_dds.Base.Text.{Str, codes, find_after, strip_prefix}

-- An element of a sequence is `none` if it is not a string.
pub data Value : Type 0 where
  null other : Value
  text : Str → Value
  seq : List (Option Str) → Value

pub data ConfigError : Type 0 where
  invalid_type : ConfigError
  invalid_max_frequency : Str → ConfigError
  invalid_regex : Str → ConfigError
  invalid_max_frequency_regex : Str → ConfigError
  invalid_float : Str → ConfigError

-- `?` on a result.
infixl 5 ◌>>=◌
abbrev ◌>>=◌ :
    {A B : Type 0} → Result ConfigError A → (A → Result ConfigError B) → Result ConfigError B
ok a >>= f = f a
err e >>= f = err e

-- `while let Some(s) = seq.next_element()?`
unfoldable pub elements : List (Option Str) → Result ConfigError (List Str)
elements [] = ok []
elements (none ∷ es) = err invalid_type
elements (some s ∷ es) = elements es >>= λ strs. ok (s ∷ strs)

-- A string or an array of strings; `null` is none.
unfoldable pub deserialize_path : Value → Result ConfigError (Option (List Str))
deserialize_path null = ok none
deserialize_path (text v) = ok (some (v ∷ []))
deserialize_path (seq es) = elements es >>= λ v. ok (some v)
deserialize_path other = err invalid_type

-- `vec.join("|")`
unfoldable pub join_with_bar : List Str → Str
join_with_bar [] = []
join_with_bar (s ∷ []) = s
join_with_bar (s ∷ (t ∷ rest)) = s ++ (codes "|" ++ join_with_bar (t ∷ rest))

module _ (env : Str → Option Str) (parse_u32 : Str → Option ℕ) where
  abbrev or_default : Option ℕ → ℕ
  or_default none = 0
  or_default (some domain) = domain

  abbrev domain_of : Option Str → ℕ
  domain_of none = 0
  domain_of (some s) = or_default (parse_u32 s)

  unfoldable pub default_domain : ℕ
  default_domain = domain_of (env (codes "ROS_DOMAIN_ID"))

module _ (is_regex : Str → Bool) where
  -- `Regex::new`; the regex is its source.
  unfoldable pub new_regex : Str → Result ConfigError Str
  new_regex s = if is_regex s then ok s else err (invalid_regex s)

  -- A string, or strings that are joined to one regex; `null` is none.
  unfoldable pub deserialize_regex : Value → Result ConfigError (Option Str)
  deserialize_regex null = ok none
  deserialize_regex (text value) = new_regex value >>= λ re. ok (some re)
  deserialize_regex (seq es) =
      elements es >>= λ strs. new_regex (join_with_bar strs) >>= λ re. ok (some re)
  deserialize_regex other = err invalid_type

  module _ (parse_f32 : Str → Option ℕ) where
    abbrev float_of : Str → Option ℕ → Result ConfigError ℕ
    float_of s none = err (invalid_float s)
    float_of s (some frequency) = ok frequency

    abbrev regex_at : Str → Str → Result ConfigError Str
    regex_at s re = if is_regex re then ok re else err (invalid_max_frequency_regex s)

    abbrev frequency_at : Str → Option (Str × Str) → Result ConfigError (Str × ℕ)
    frequency_at s none = err (invalid_max_frequency s)
    frequency_at s (some (re, after)) = regex_at s re >>= λ regex.
        float_of s (parse_f32 after) >>= λ frequency. ok (regex, frequency)

    -- `regex=frequency`, split at the first `=`.
    unfoldable pub max_frequency : Str → Result ConfigError (Str × ℕ)
    max_frequency s = frequency_at s (find_after s (codes "="))

    unfoldable pub max_frequencies_of : List Str → Result ConfigError (List (Str × ℕ))
    max_frequencies_of [] = ok []
    max_frequencies_of (s ∷ strs) =
        max_frequency s >>= λ f. max_frequencies_of strs >>= λ rest. ok (f ∷ rest)

    unfoldable pub deserialize_max_frequencies : Value → Result ConfigError (List (Str × ℕ))
    deserialize_max_frequencies (seq es) = elements es >>= λ strs. max_frequencies_of strs
    deserialize_max_frequencies _ = err invalid_type

    -- How an entry is written: the regex without `=`, and a text of the frequency.
    pub record IsWritten (re after : Str) (frequency : ℕ) : Type 0 where
      pub compiles : is_regex re ≡ true
      pub no_equals : find_after re (codes "=") ≡ none
      pub parses : parse_f32 after ≡ some frequency

    abbrev pub AreWritten : List (Str × Str × ℕ) → Type 0
    AreWritten [] = Unit
    AreWritten ((re, after, frequency) ∷ entries) =
        IsWritten re after frequency × AreWritten entries

    abbrev pub written : List (Str × Str × ℕ) → List (Option Str)
    written = map λ e. some (e.0 ++ (codes "=" ++ e.1))

    abbrev pub meant : List (Str × Str × ℕ) → List (Str × ℕ)
    meant = map λ e. (e.0, e.2)

    find_after-written :
        (re after : Str)
        → find_after re (codes "=") ≡ none
        → find_after (re ++ (codes "=" ++ after)) (codes "=") ≡ some (re, after)
    unfolding find_after strip_prefix
    find_after-written [] after e = refl
    find_after-written (c ∷ re) after e = ground (arith, e, find_after-written re after)

    abbrev texts : List (Str × Str × ℕ) → List Str
    texts = map λ e. e.0 ++ (codes "=" ++ e.1)

    elements-written :
        (entries : List (Str × Str × ℕ)) → elements (written entries) ≡ ok (texts entries)
    unfolding elements
    elements-written [] = refl
    elements-written ((re, after, frequency) ∷ entries) = rw (elements-written entries) refl

    max_frequency-written :
        (re after : Str) (frequency : ℕ)
        → IsWritten re after frequency
        → max_frequency (re ++ (codes "=" ++ after)) ≡ ok (re, frequency)
    unfolding max_frequency
    max_frequency-written re after frequency h =
        rw (find_after-written re after h.no_equals) (rw h.compiles (rw h.parses refl))

    max_frequencies_of-written :
        (entries : List (Str × Str × ℕ))
        → AreWritten entries
        → max_frequencies_of (texts entries) ≡ ok (meant entries)
    unfolding max_frequencies_of
    max_frequencies_of-written [] h = refl
    max_frequencies_of-written ((re, after, frequency) ∷ entries) (h, hs) =
        rw (max_frequency-written re after frequency h)
          (rw (max_frequencies_of-written entries hs) refl)

    -- Entries that are written as a regex, `=` and a frequency are read back, in order, if each regex
    -- compiles and has no `=`, and each frequency parses.
    pub deserialize_max_frequencies-written :
        (entries : List (Str × Str × ℕ))
        → AreWritten entries
        → deserialize_max_frequencies (seq (written entries)) ≡ ok (meant entries)
    unfolding deserialize_max_frequencies
    deserialize_max_frequencies-written entries h =
        rw (elements-written entries) (max_frequencies_of-written entries h)
