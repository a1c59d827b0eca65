-- ===== src/Qtest/Size.antt =====
-- The commands that leave the queue as it is: size, and rhq.
use cohere_technology_skillb.Prelude.{
  ℕ, zero, suc, ◌+◌, ◌-◌, ◌^◌, ◌<◌, ◌≡◌, refl, ap, ◌∙◌, true, none, some, List, [], ◌∷◌, arith,
  ◌==◌, ◌⊎◌, inl, inr, length, ltb, if◌then◌else◌,
}
use cohere_technology_skillb.Memory.Rules
use cohere_technology_skillb.Memory.Rules.{Returns, returns, Points}
use cohere_technology_skillb.Queue.{q_size, q_remove_head}
use cohere_technology_skillb.Queue.Remove.{q_remove_head-none}
use cohere_technology_skillb.Queue.Reverse.{q_size-length}
use cohere_technology_skillb.Queue.Segment.{Entries}
use cohere_technology_skillb.Qtest.{Tester, World, clear_error}
use cohere_technology_skillb.Qtest.Commands.{
  do_size, size_loop, do_remove_head_quiet, failed, tolerated, reps_of,
}
use cohere_technology_skillb.Qtest.State.{
  IsTester, guarded-ok, clear-same, clear-IsTester, failed-IsTester, shown_checked-IsTester,
}

size_loop-length :
    {t : Tester} {xs : Entries} (w : World) (k cnt : ℕ)
    → IsTester t xs
    → (cnt ≡ length xs) ⊎ (0 < k)
    → size_loop w k cnt t ≡ ((true, length xs), t)
unfolding size_loop
size_loop-length w zero cnt i (inl e) = rw e refl
size_loop-length w zero cnt i (inr lt) = absurd (omega (arith, lt))
size_loop-length {t} {xs} w (suc k) cnt i c =
    let one = guarded-ok w (q_size t.q) t (length xs) (q_size-length i.is) in
    rw (size_loop, one) (simp i.no_error (size_loop-length w k (length xs) i (inl refl)))

-- size with a count of at least one finds the length of a well-formed queue right, and changes
-- nothing.
pub do_size-IsTester :
    {t : Tester} {xs : Entries} (w : World) (name n : List ℕ) (reps : ℕ)
    → IsTester t xs
    → reps_of w (n ∷ []) ≡ some (reps + 1)
    → do_size w (name ∷ n ∷ []) t ≡ some (true, t)
unfolding do_size
do_size-IsTester {t} {xs} w name n reps i e =
    let i0 = clear-IsTester i in
    let loop = size_loop-length w (reps + 1) 0 i0 (inr (omega arith)) in
    let right : (t.qcnt
          == (if ltb (length xs) (2 ^ 31) then length xs else length xs + (2 ^ 64 - 2 ^ 32)))
        ≡ true =
      ground (arith, i.counted, i.few) in
    rw (do_size, e, loop, right)
      (shown_checked-IsTester w true i0 ∙ ap (λ u. some (true, u)) (clear-same t i.no_error))

-- rhq on a well-formed queue never removes anything: the queue and the heap stay as they are, and
-- the command counts a failure, which is an error once fail_limit has been reached.
pub do_remove_head_quiet-never :
    {t : Tester} {xs : Entries} (w : World) (name : List ℕ)
    → IsTester t xs
    → do_remove_head_quiet w (name ∷ []) t ≡ some (tolerated (failed t), failed t)
unfolding do_remove_head_quiet
do_remove_head_quiet-never {t} {xs} w name i =
    let i0 = clear-IsTester i in
    let call =
      guarded-ok w (q_remove_head t.q none 0) (clear_error t) _
        (q_remove_head-none none 0 i.is (inr refl)) in
    rw (do_remove_head_quiet, Rules.not_null i.is.object, Rules.load-ok i.is.object, call)
      (shown_checked-IsTester w (tolerated (failed t)) (failed-IsTester i0)
        ∙ ap (λ u. some (tolerated (failed t), failed u)) (clear-same t i.no_error))
