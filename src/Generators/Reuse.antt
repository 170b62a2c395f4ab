-- ===== src/Generators/Reuse.antt =====
-- The cache of the generators' results.
use tabra.Prelude.{
  ℕ, suc, ◌-◌, ◌/◌, ◌<◌, ◌≡◌, refl, true, List, ◌∷◌, Option, none, some, Text, codes, map, arith,
  eq_text_iff,
}
use tabra.Suggest.{ResolvedSuggestion, get_or}
use tabra.Generators.{
  Runtime, Cache, Key, CachedResult, same_key, lookup, lines_of, line_suggestion, output_of, store,
  is_executable, is_fresh, execute_generator,
}

same_key_refl : (k : Key) → same_key k k ≡ true
same_key_refl (h, c) = ground (arith, (eq_text_iff c c).1 refl)

lookup-cons :
    (k : Key) (r : CachedResult) (es : List (Key × CachedResult)) → lookup k ((k, r) ∷ es) ≡ some r
unfolding lookup
lookup-cons k r es = rw (same_key_refl k) refl

module _ {V : Type 0} (rt : Runtime V) where
  -- A script that has not been run in a directory is run, and its output is split at its delimiter;
  -- within 30 seconds of that, it is not run again there: the same lines are suggested, whatever
  -- the process would print now, and whatever delimiter and time-out the second generator asks for.
  -- The 30 seconds are those of every generator: a `cache.ttl` in its spec is not read.
  pub execute_generator_again :
      (c : Cache) (script : V) (split_on split_on' : Option Text) (timeout timeout' : Option ℕ)
      (cwd out : Text)
      → is_executable rt (rt.script_of script) ≡ true
      → lookup (rt.hash script, cwd) c.entries ≡ none
      → output_of rt c.counter (rt.script_of script) cwd (get_or timeout 5000) ≡ some out
      → (rt.clock (suc (suc c.counter)) - rt.clock (suc c.counter)) / 1000000000 < 30
      → (c' : Cache) × (lines : List ResolvedSuggestion) × (execute_generator rt c script split_on
            timeout cwd
          ≡ (c', lines))
        × (lines ≡ map line_suggestion (lines_of (get_or split_on (codes "\n")) out))
        × (execute_generator rt c' script split_on' timeout' cwd
            ≡ (record c' { counter = suc c'.counter }, lines))
  unfolding execute_generator
  execute_generator_again c script split_on split_on' timeout timeout' cwd out x n o f =
      let k : Key = (rt.hash script, cwd) in
      let lines = lines_of (get_or split_on (codes "\n")) out in
      let c' = store rt c k lines in
      let r : CachedResult = record { lines = lines; created_at = rt.clock (suc c.counter) } in
      let found : lookup k c'.entries ≡ some r = lookup-cons k r c.entries in
      let fresh : is_fresh (rt.clock c'.counter) r ≡ true = ground arith in
      (
        c',
        map line_suggestion lines,
        rw (x, n, o, execute_generator) refl,
        refl,
        rw (x, found, fresh, execute_generator) refl,
      )
