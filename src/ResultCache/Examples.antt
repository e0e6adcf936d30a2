-- ===== src/ResultCache/Examples.antt =====
-- Tests of the cache of results, and its theorems on small commands.
use herdr_pal.Prelude.{ℕ, ◌≡◌, ◌≢◌, refl, List, [], ◌∷◌, none, ==_apart, length, arith, ℕ_discrete}
use herdr_pal.Prelude.Maps.{lookup}
use herdr_pal.Prelude.Text.{Text, text_eq, Text-discrete, codes}
use herdr_pal.Hprp.{text}
use herdr_pal.ResultCache.{
  new_result_cache, ResultCache, Command, CommandResult, Cached, Payload, miss, hit, released,
  prune_cache, lookup_result, store,
}
use herdr_pal.ResultCache.Sizes.{IsAccounted}
use herdr_pal.ResultCache.Runs.{CacheCall, look_up, put, cache_run, cache_run-IsAccounted}
use herdr_pal.ResultCache.Stored.{lookup_result-store}

abbrev command_with : Text → Command
command_with content = record {
  idempotency_key = codes "k";
  target = record { machine_id = codes "m"; slot_id = codes "s"; session_id = codes "a" };
  content = content;
  output_mode = text;
}

-- A fingerprint that keeps the content, and a size that counts the outputs.
abbrev by_content : Command → Text
by_content c = c.content

abbrev by_outputs : Payload → ℕ
by_outputs p = length p.outputs

abbrev cache : ResultCache
cache = record { entries = []; capacity = 2; max_bytes = 10; used_bytes = 0; ttl = 100 }

abbrev done : CommandResult
done = record { outcome = codes "ok"; content = none; error = none; replacement_target = none }

abbrev hello : Command
hello = command_with (codes "hello")

abbrev other_command : Command
other_command = command_with (codes "other")

missed : (lookup_result by_content cache 1 hello).1 ≡ miss
unfolding lookup_result prune_cache released lookup
missed = refl

apart : by_content other_command ≢ by_content hello
unfolding Text-discrete ℕ_discrete
apart = ==_apart (by_content other_command) (by_content hello) refl

cache_run-IsAccounted_example : IsAccounted (
    cache_run by_content by_outputs (new_result_cache 2 10 100) (
      look_up 1 hello
      ∷ put 1 2 hello done (codes "page" ∷ [])
      ∷ look_up 3 other_command
      ∷ put 200 200 other_command done []
      ∷ []))
cache_run-IsAccounted_example = cache_run-IsAccounted by_content by_outputs 2 10 100 (
    look_up 1 hello
    ∷ put 1 2 hello done (codes "page" ∷ [])
    ∷ look_up 3 other_command
    ∷ put 200 200 other_command done []
    ∷ [])

abbrev another : Command
another = record hello { idempotency_key = codes "j" }

keys_apart : another.idempotency_key ≢ hello.idempotency_key
unfolding Text-discrete ℕ_discrete
keys_apart = ==_apart another.idempotency_key hello.idempotency_key refl

abbrev between : List CacheCall
between = look_up 20 another ∷ put 21 22 another done [] ∷ look_up 30 hello ∷ []

lookup_result-store_example :
    (e : Cached) × ((lookup_result by_content
        (cache_run by_content by_outputs
          (store by_content by_outputs (lookup_result by_content cache 1 hello).0 3 4 hello done [])
          between)
        50
        hello).1
      ≡ hit e)
    × (e.target ≡ hello.target)
    × (e.result.outcome ≡ done.outcome)
    × (e.result.replacement_target ≡ done.replacement_target)
lookup_result-store_example =
    lookup_result-store by_content by_outputs cache 1 3 4 hello done [] between 50 missed
      (omega arith, ((omega arith, keys_apart), (omega arith, tt))) (omega arith)
