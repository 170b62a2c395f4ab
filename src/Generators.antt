-- ===== src/Generators.antt =====
-- `execute_generator`, `run_command` and the cache of src/engine/resolver.rs. The hash, the clock,
-- what a child process gives and what kind of JSON value a script is are parameters; the n-th
-- reading of the clock, or the n-th process, is the one with the counter n.
pub mod Reuse
use tabra.Prelude.{
  ℕ, zero, suc, ◌+◌, ◌-◌, ◌/◌, Bool, true, false, not, ◌&&◌, ◌||◌, List, [], ◌∷◌, ◌++◌, Option,
  none, some, Text, codes, map, filter, if◌then◌else◌, ◌==◌, ltb, within, is_empty, length,
  starts_with, eq_text,
}
use mathlib.Core.List.{reverse}
use tabra.Utf8.{from_utf8}
use tabra.Spec.{special}
use tabra.Suggest.{ResolvedSuggestion, get_or}

-- The kinds of JSON values that are told apart; of an array, the strings in it.
pub data Script : Type 0 where
  array : List Text → Script
  string : Text → Script
  other : Script

-- The exit status and standard output of a process that ended in time.
pub record Output : Type 0 where
  pub success : Bool
  pub stdout : List ℕ

pub record Runtime (V : Type 0) : Type 0 where
  pub script_of : V → Script
  pub hash : V → ℕ
  -- Nanoseconds.
  pub clock : ℕ → ℕ
  -- The program, its arguments, the directory and the time-out in milliseconds.
  pub output : ℕ → Text → List Text → Text → ℕ → Option Output

pub record CachedResult : Type 0 where
  pub lines : List Text
  pub created_at : ℕ

-- `(script_hash, cwd)`.
abbrev pub Key : Type 0
Key = ℕ × Text

abbrev pub same_key : Key → Key → Bool
same_key (h, c) (h', c') = (h == h') && eq_text c c'

-- The cache, an association list with the newest first, and the counter.
pub record Cache : Type 0 where
  pub entries : List (Key × CachedResult)
  pub counter : ℕ

unfoldable pub lookup : Key → List (Key × CachedResult) → Option CachedResult
lookup k [] = none
lookup k ((k', r) ∷ es) = if same_key k' k then some r else lookup k es

-- `char::is_whitespace`.
unfoldable pub is_whitespace : ℕ → Bool
is_whitespace c =
    within 0x09 0x0d c
    || ((c == 0x20)
        || ((c == 0x85)
            || ((c == 0xa0)
                || ((c == 0x1680)
                    || (within 0x2000 0x200a c
                        || (within 0x2028 0x2029 c
                            || ((c == 0x202f) || ((c == 0x205f) || (c == 0x3000)))))))))

unfoldable pub trim_start : Text → Text
trim_start [] = []
trim_start (c ∷ s) = let rest = trim_start s in if is_whitespace c then rest else c ∷ s

-- `str::trim`.
unfoldable pub trim : Text → Text
trim s = reverse (trim_start (reverse (trim_start s)))

-- `str::split` at a delimiter that is not empty: `skip` characters of it are still to come, and
-- `cur` is the piece being read.
unfoldable pub split_from : Text → ℕ → Text → Text → List Text
split_from d skip [] cur = cur ∷ []
split_from d (suc k) (c ∷ s) cur = split_from d k s cur
split_from d zero (c ∷ s) cur = elim (starts_with (c ∷ s) d) [
  | true ↦ cur ∷ split_from d (length d - 1) s []
  | false ↦ split_from d zero s (cur ++ c ∷ [])
]

-- `str::split`; at the empty delimiter the pieces are the characters, between two empty ones.
unfoldable pub split : Text → Text → List Text
split d s = if is_empty d then [] ∷ (map (λ c. c ∷ []) s ++ [] ∷ []) else split_from d 0 s []

unfoldable pub lines_of : Text → Text → List Text
lines_of delimiter output = filter (λ l. not (is_empty l)) (map trim (split delimiter output))

abbrev pub line_suggestion : Text → ResolvedSuggestion
line_suggestion line = record {
  match_text = line;
  display_text = line;
  insert_text = line;
  description = [];
  kind = special;
  priority = 50;
  is_dangerous = false;
}

abbrev pub stdout_text : Option Output → Option Text
stdout_text none = none
stdout_text (some o) = if o.success then from_utf8 (length o.stdout) o.stdout else none

-- `elapsed().as_secs() < CACHE_TTL_SECS`.
abbrev pub is_fresh : ℕ → CachedResult → Bool
is_fresh now r = ltb ((now - r.created_at) / 1000000000) 30

module _ {V : Type 0} (rt : Runtime V) where
  unfoldable pub run_command : ℕ → Text → List Text → Text → ℕ → Option Text
  run_command n program args cwd timeout = stdout_text (rt.output n program args cwd timeout)

  -- The output of a script; `none` also for an array without a string.
  unfoldable pub output_of : ℕ → Script → Text → ℕ → Option Text
  output_of n (array []) cwd timeout = none
  output_of n (array (program ∷ args)) cwd timeout = run_command n program args cwd timeout
  output_of n (string cmd) cwd timeout =
      run_command n (codes "sh") (codes "-c" ∷ cmd ∷ []) cwd timeout
  output_of n other cwd timeout = none

  -- Lines are stored at the time of the reading behind the process's.
  abbrev pub store : Cache → Key → List Text → Cache
  store c k lines = record {
    entries = (k, record { lines = lines; created_at = rt.clock (suc c.counter) }) ∷ c.entries;
    counter = suc (suc c.counter);
  }

  abbrev pub produced : Cache → Key → Text → Option Text → Cache × List ResolvedSuggestion
  produced c k delimiter none = (record c { counter = suc c.counter }, [])
  produced c k delimiter (some out) =
      let lines = lines_of delimiter out in (store c k lines, map line_suggestion lines)

  -- A cache miss, or an entry that is too old.
  abbrev pub execute :
      Cache → Key → Script → Option Text → Option ℕ → Text → Cache × List ResolvedSuggestion
  execute c k script split_on timeout cwd =
      produced c k (get_or split_on (codes "\n"))
        (output_of c.counter script cwd (get_or timeout 5000))

  abbrev pub from_cache :
      Cache
      → Key
      → Script
      → Option Text
      → Option ℕ
      → Text
      → Option CachedResult
      → Cache × List ResolvedSuggestion
  from_cache c k script split_on timeout cwd none = execute c k script split_on timeout cwd
  from_cache c k script split_on timeout cwd (some r) =
      let later = record c { counter = suc c.counter } in
      if is_fresh (rt.clock c.counter) r
      then (later, map line_suggestion r.lines)
      else execute later k script split_on timeout cwd

  abbrev pub is_executable : Script → Bool
  is_executable other = false
  is_executable _ = true

  -- `execute_generator`: the cache behind it, and what it pushes.
  unfoldable pub execute_generator :
      Cache → V → Option Text → Option ℕ → Text → Cache × List ResolvedSuggestion
  execute_generator c script split_on timeout cwd =
      let k : Key = (rt.hash script, cwd) in
      if is_executable (rt.script_of script)
      then from_cache c k (rt.script_of script) split_on timeout cwd (lookup k c.entries)
      else (c, [])
