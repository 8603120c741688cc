-- ===== src/Overhead/SameWorkflow/Calls.antt =====
-- What the calls of one run do: of the first one, and of a later one.
use idempotent_transformer.Common.{
  ℕ, suc, ◌+◌, ◌<◌, String, ◌≡◌, refl, ◌∙◌, none, List, [], ◌∷◌, ◌++◌, length, arith,
}
use Prim.Native.String.{◌++◌ as concat}
use idempotent_transformer.Runner.{Workflow, Session}
use idempotent_transformer.Memo.{Spec, memo_execute}
use idempotent_transformer.Memo.Journal.{Returns, Stable}
use idempotent_transformer.Memo.Rules.{>>-Returns}
use idempotent_transformer.Scenario.{promised}
use idempotent_transformer.Scenario.Steps.{AtPosition, store_after_step, replay_step, complete_step}
use idempotent_transformer.Overhead.{Counters}
use idempotent_transformer.Overhead.SameWorkflow.{
  Variables, with_line, appends_after, task1, task2, task3, task4, task5, calls,
}

module _ (to_string : ℕ → String) where
  -- The variables, where the disk gives no error, and the time.
  abbrev pub Known : List String → Counters → ℕ → Spec String Variables → Type 0
  Known file counters n a =
      (a.user ≡ record { file = file; disk_error = none; counters = counters }) × (a.memo.now ≡ n)

  abbrev pub line : ℕ → String
  line n = concat (to_string n) "\n"

  pub Known-Stable :
      {id : String} (file : List String) (counters : Counters) (n : ℕ)
      → Stable id (Known file counters n)
  Known-Stable {id} file counters n a m e (user, at) = (user, e.now ∙ at)

  module _ (w : Workflow) where
    appends_step :
        (key : String) (ms : ℕ) (rs : List (String × String)) (file : List String)
        (counters : Counters) (n : ℕ) (s : Session (Spec String Variables))
        → ms < 30000
        → AtPosition (length rs) w rs (Known file counters n) s
        → Returns (memo_execute w key (appends_after promised to_string ms) none) s (to_string n) (
            AtPosition
              (suc (length rs))
              w
              (rs ++ (key, to_string n) ∷ [])
              (Known (file ++ line n ∷ []) counters (n + ms)))
    appends_step key ms rs file counters n s soon at =
        store_after_step w key (appends_after promised to_string ms) none rs (Known file counters n)
          (Known (file ++ line n ∷ []) counters (n + ms)) (Known-Stable _ _ _) (Known-Stable _ _ _)
          (to_string n) (with_line (line n)) ms s soon
          (λ b (u, t). (rw u (rw t refl), (rw u refl, rw t refl))) at

    task5_step :
        (rs : List (String × String)) (file : List String) (counters : Counters) (n : ℕ)
        (s : Session (Spec String Variables))
        → AtPosition (length rs) w rs (Known file counters n) s
        → Returns (memo_execute w "task5" (task5 promised to_string) none) s (to_string n) (
            AtPosition
              (suc (length rs))
              w
              (rs ++ ("task5", to_string n) ∷ [])
              (Known (file ++ line n ∷ []) counters (n + 1000)))
    task5_step rs file counters n s at =
        store_after_step w "task5" (task5 promised to_string) none rs (Known file counters n)
          (Known (file ++ line n ∷ []) counters (n + 1000)) (Known-Stable _ _ _)
          (Known-Stable _ _ _) (to_string n) (with_line (line n)) 1000 s (omega arith)
          (λ b (u, t). (rw u (rw t refl), (rw u refl, rw t refl))) at

  module _ (w : Workflow) (file : List String) (counters : Counters) (n : ℕ) where
    abbrev file1 : List String
    file1 = file ++ line n ∷ []

    abbrev file2 : List String
    file2 = file1 ++ line (n + 300) ∷ []

    abbrev file3 : List String
    file3 = file2 ++ line (n + 300 + 300) ∷ []

    abbrev file4 : List String
    file4 = file3 ++ line (n + 300 + 300 + 100) ∷ []

    abbrev pub file5 : List String
    file5 = file4 ++ line (n + 300 + 300 + 100 + 500) ∷ []

    abbrev results1 : List (String × String)
    results1 = ("task1", to_string n) ∷ []

    abbrev results2 : List (String × String)
    results2 = ("task1", to_string n) ∷ ("task2", to_string (n + 300)) ∷ []

    abbrev results3 : List (String × String)
    results3 = results2 ++ (("task3", to_string (n + 300 + 300)) ∷ [])

    abbrev results4 : List (String × String)
    results4 =
        results2
        ++ (("task3", to_string (n + 300 + 300)) ∷ ("task4", to_string (n + 300 + 300 + 100)) ∷ [])

    abbrev pub results5 : List (String × String)
    results5 = results4 ++ (("task5", to_string (n + 300 + 300 + 100 + 500)) ∷ [])

    pub first_calls :
        (s : Session (Spec String Variables))
        → AtPosition 0 w [] (Known file counters n) s
        → Returns
            (calls promised to_string w)
            s
            tt
            (AtPosition 5 w results5 (Known file5 counters (n + 300 + 300 + 100 + 500 + 1000)))
    first_calls s at =
        >>-Returns (appends_step w "task1" 300 [] file counters n s (omega arith) at) (λ s1 at1.
          >>-Returns
            (appends_step w "task2" 300 results1 file1 counters (n + 300) s1 (omega arith) at1)
            (λ s2 at2.
              >>-Returns
                (appends_step w "task3" 100 results2 file2 counters (n + 300 + 300) s2 (omega arith)
                  at2)
                (λ s3 at3.
                  >>-Returns
                    (appends_step w "task4" 500 results3 file3 counters (n + 300 + 300 + 100) s3
                      (omega arith) at3)
                    (λ s4 at4.
                      >>-Returns
                        (task5_step w results4 file4 counters (n + 300 + 300 + 100 + 500) s4 at4)
                        (λ s5 at5.
                          complete_step (Known file5 counters (n + 300 + 300 + 100 + 500 + 1000)) w
                            5 results5 s5 (Known-Stable _ _ _) at5)))))

    -- The results of the first run are there: no task runs.
    pub later_calls :
        (file' : List String) (counters' : Counters) (n' : ℕ) (s : Session (Spec String Variables))
        → AtPosition 0 w results5 (Known file' counters' n') s
        → Returns
            (calls promised to_string w)
            s
            tt
            (AtPosition 5 w results5 (Known file' counters' n'))
    later_calls file' counters' n' s at =
        let K = Known file' counters' n' in
        >>-Returns (replay_step w "task1" (task1 promised to_string) none 0 results5 K _ s refl at)
          (λ s1 at1.
            >>-Returns
              (replay_step w "task2" (task2 promised to_string) none 1 results5 K _ s1 refl at1)
              (λ s2 at2.
                >>-Returns
                  (replay_step w "task3" (task3 promised to_string) none 2 results5 K _ s2 refl at2)
                  (λ s3 at3.
                    >>-Returns
                      (replay_step w "task4" (task4 promised to_string) none 3 results5 K _ s3 refl
                        at3)
                      (λ s4 at4.
                        >>-Returns
                          (replay_step w "task5" (task5 promised to_string) none 4 results5 K _ s4
                            refl at4)
                          (λ s5 at5.
                            complete_step K w 5 results5 s5 (Known-Stable file' counters' n')
                              at5)))))
