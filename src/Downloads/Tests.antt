-- ===== src/Downloads/Tests.antt =====
-- One worker and one request, from the creation of the thread to the return of main; and two workers
-- that give their files the same name.
use cohere_technology_skillb.Prelude.{
  ℕ, ◌+◌, ◌≤◌, ◌≡◌, ◌⊎◌, refl, Bool, true, false, List, [], ◌∷◌, ◌++◌, arith, length,
}
use cohere_technology_skillb.Memory.{Ptr}
use cohere_technology_skillb.Downloads.{
  Shared, Pc, ready, woken, fetched, named, finished, acquire, leave, wait, wake, take_path,
  release, read_counter, write_counter, download, Main, creating, preparing, signalled, done,
  Client, requests_of, is_running, Step, create, begin, main_lock, main_enqueue, signal,
  signal_none, main_unlock, prepared, join, clean_up, work, initial, Reach, start, later, stay, go,
}
use cohere_technology_skillb.Downloads.Counts.{total, holds, AllFinished}
use cohere_technology_skillb.Downloads.Invariant.{main_holds}
use cohere_technology_skillb.Downloads.Safety.{Reach-order, done-taken}
use cohere_technology_skillb.Downloads.Measure.{measure, Run-measure}

abbrev short : Ptr → ℕ
short p = 9

abbrev one : List Ptr
one = 700 ∷ []

abbrev state : Shared → List Pc → Main → Client
state m ws main = record { shared = m; workers = ws; main = main }

abbrev shared : Bool → List Ptr → ℕ → List Ptr → Shared
shared b q c l = record { mutex = b; queue = q; counter = c; taken = l }

abbrev R : Client → Type 0
R = Reach short 1 1 one

-- The worker waits, and main puts the request into the queue and signals.
signalled_state : R (state (shared true one 0 []) (woken 0 ∷ []) (signalled []))
signalled_state =
    later
      (later
        (later
          (later
            (later (later (later start (create refl)) (begin refl))
              (work [] [] refl refl (acquire refl)))
            (work [] [] refl refl (wait refl)))
          (main_lock refl (omega arith) refl))
        (main_enqueue refl refl))
      (signal 0 [] [] refl refl)

returned : R (state (shared false [] 1 one) (finished ∷ []) done)
returned =
    later
      (later
        (later
          (later
            (later
              (later
                (later
                  (later
                    (later
                      (later (later signalled_state (main_unlock refl))
                        (work [] [] refl refl (wake refl)))
                      (work [] [] refl refl (take_path refl)))
                    (work [] [] refl refl release))
                  (work [] [] refl refl read_counter))
                (work [] [] refl refl write_counter))
              (work [] [] refl refl download))
            (work [] [] refl refl leave))
          (prepared refl))
        (join refl refl))
      (clean_up refl refl)

Reach-order_example :
    (total holds (woken 0 ∷ []) + main_holds (signalled []) ≤ 1)
    × ([] ++ (one ++ requests_of one (signalled [])) ≡ one)
Reach-order_example = Reach-order signalled_state

done-taken_example :
    (one ≡ one)
    × ((◌≡◌ {A = List Ptr} [] []) × ((length (finished ∷ []) ≡ 1) × AllFinished (finished ∷ [])))
done-taken_example = done-taken returned refl refl

Run-measure_example :
    (1 ≤ measure 1 1 one (initial 1))
    × ((is_running (creating 0) ≡ false)
        ⊎ ((s : Client) × Step short 1 one
              (state (shared false [] 0 []) (ready 1 ∷ []) (creating 0))
              s))
Run-measure_example = Run-measure start refl (go stay (create refl))

-- The static counter of localPath is read and written with no mutex: two threads that ask for the same
-- path take the same number, and open the same file.
same_name :
    Reach short 1 2 (700 ∷ 700 ∷ []) (
      state
        (shared false [] 0 (700 ∷ 700 ∷ []))
        (named 0 700 0 ∷ named 0 700 0 ∷ [])
        (preparing []))
same_name =
    let both = later (later (later start (create refl)) (create refl)) (begin refl) in
    let one_there =
      later
        (later (later (later both (main_lock refl (omega arith) refl)) (main_enqueue refl refl))
          (signal_none refl (refl, (refl, tt))))
        (main_unlock refl) in
    let two_there =
      later
        (later
          (later (later one_there (main_lock refl (omega arith) refl)) (main_enqueue refl refl))
          (signal_none refl (refl, (refl, tt))))
        (main_unlock refl) in
    let first =
      later
        (later (later two_there (work [] (ready 1 ∷ []) refl refl (acquire refl)))
          (work [] (ready 1 ∷ []) refl refl (take_path refl)))
        (work [] (ready 1 ∷ []) refl refl release) in
    let second =
      later
        (later (later first (work (fetched 0 700 ∷ []) [] refl refl (acquire refl)))
          (work (fetched 0 700 ∷ []) [] refl refl (take_path refl)))
        (work (fetched 0 700 ∷ []) [] refl refl release) in
    later (later second (work [] (fetched 0 700 ∷ []) refl refl read_counter))
      (work (named 0 700 0 ∷ []) [] refl refl read_counter)
