-- ===== src/ChatSearch/Examples.antt =====
-- The theorems on the chat search at concrete inputs.
use fmxevolution_go.Base.{ℕ, ◌+◌, ◌*◌, false, ◌≡◌, refl, List, [], ◌∷◌, pos, second, arith}
use fmxevolution_go.Base.Effect.{ok, err}
use fmxevolution_go.Domain.{plain_error}
use fmxevolution_go.ChatSearch.{
  Cache, new_chat_search_cache, Result, Times, answer, store, search_chats, other_runtime,
}
use fmxevolution_go.ChatSearch.Searches.{Query, Spaced, asks, asks-Spaced}
use fmxevolution_go.ChatSearch.Reuse.{Search, after_all, store-reuse}

abbrev cache : Cache ℕ
cache = new_chat_search_cache (pos (30 * second)) (pos (300 * second)) (pos (5 * second))

abbrev at : ℕ → Times
at now = record { look = now; look_again = now; start = now; finish = now + 1 }

abbrev queries : List (Query ℕ)
queries =
    (at 5, answer (err (plain_error "429")))
    ∷ (at 6, answer (ok (1 ∷ [])))
    ∷ (at (6 * second), answer (ok (1 ∷ [])))
    ∷ []

asks-Spaced_example : Spaced cache.live_throttle (asks "k" queries cache)
unfolding new_chat_search_cache
asks-Spaced_example =
    asks-Spaced "k" queries cache
      ((omega arith, omega arith), ((omega arith, omega arith), ((omega arith, omega arith), tt)))
      (omega arith)

abbrev others : List (Search ℕ)
others = record { key = "l"; times = at 20; bridge = answer (ok (2 ∷ [])) } ∷ []

store-reuse_example :
    (r : Result ℕ) × (r.items ≡ 1 ∷ [])
    × (search_chats (after_all others (store cache "k" (1 ∷ []) 9).1) "k" (at 30) other_runtime
        ≡ (ok r, after_all others (store cache "k" (1 ∷ []) 9).1, false))
unfolding new_chat_search_cache
store-reuse_example =
    store-reuse cache "k" (1 ∷ []) 9 others (at 30) other_runtime ((refl, omega arith), tt)
      (omega arith)
