-- ===== src/Widgets/Order.antt =====
-- The order of the decisions in surfaces/desktop/src/widgets/turn.rs.
use scufris.Base.{
  ℕ, ◌+◌, ◌≤◌, ◌<◌, true, false, Option, none, some, List, [], ◌∷◌, ◌++◌, length, ltb, ◌≡◌, inl,
  inr, refl, arith, if◌then◌else◌, ◌&&◌, append_assoc, append-nil, length-append, Bool-cases, ◌∙◌,
  sym, ap,
}
use scufris.Widgets.Turn.{
  Turn, Staff, unstaffed, working, gone, Step, staffs, frees, waits, releases, announces, takes,
  finishes, panics, sends, new, staff, free, wait, release, announce, send, take, finish, panic,
  step, run, is_working, is_idle,
}

abbrev in_hand {ℓ} : {T : Type ℓ} → Option T → List T
in_hand none = []
in_hand (some one) = one ∷ []

abbrev Accounts {ℓ} : {T : Type ℓ} → ℕ → ℕ → List T → Option T → List T → List T → Staff → Type ℓ
Accounts waiting announced queue making sent made gone = (announced + 1 ≤ waiting) × (making ≡ none)
Accounts waiting announced queue making sent made _ =
    (waiting ≡ announced + length queue + length (in_hand making))
    × (sent ≡ made ++ (in_hand making ++ queue))

module _ {T : Type 0} where
  -- Until the queue's thread is gone: what is counted is what is announced, queued and being made,
  -- and what was sent is what was made, then what is being made, then the queue. After it is gone,
  -- what it was making when it went stays counted.
  abbrev IsAccounted : Turn T → Type 0
  IsAccounted t = Accounts t.waiting t.announced t.queue t.making t.sent t.made t.worker

  staff-IsAccounted :
      (t : Turn T) (s : Staff) → t.worker ≡ s → IsAccounted t → IsAccounted (staff t s)
  unfolding staff
  staff-IsAccounted t unstaffed e v = rw e at v
  staff-IsAccounted t working e v = v
  staff-IsAccounted t gone e v = v

  send-IsAccounted :
      (one : T) (t : Turn T) (s : Staff)
      → t.worker ≡ s
      → 0 < t.announced
      → IsAccounted t
      → IsAccounted (send one t s).1
  unfolding send
  send-IsAccounted one t gone e h v =
      let w : Accounts t.waiting t.announced t.queue t.making t.sent t.made gone = rw e at v in
      rw e (omega (arith, w.0), w.1)
  send-IsAccounted one t unstaffed e h v =
      let w : Accounts t.waiting t.announced t.queue t.making t.sent t.made unstaffed = rw e at v in
      rw e (omega (arith, w.0, length-append t.queue (one ∷ [])), simp (w.1, append_assoc) refl)
  send-IsAccounted one t working e h v =
      let w : Accounts t.waiting t.announced t.queue t.making t.sent t.made working = rw e at v in
      rw e (omega (arith, w.0, length-append t.queue (one ∷ [])), simp (w.1, append_assoc) refl)

  take-IsAccounted :
      (t : Turn T) (q : List T)
      → t.queue ≡ q
      → t.worker ≡ working
      → t.making ≡ none
      → IsAccounted t
      → IsAccounted (take t q)
  unfolding take
  take-IsAccounted t [] e w m v = v
  take-IsAccounted t (one ∷ rest) e w m v =
      let a : Accounts t.waiting t.announced (one ∷ rest) none t.sent t.made working =
        rw (e, w, m) at v in
      rw w (omega (arith, a.0), a.1)

  finish-IsAccounted :
      (t : Turn T) (o : Option T) (s : Staff)
      → t.making ≡ o
      → t.worker ≡ s
      → IsAccounted t
      → IsAccounted (finish t o)
  unfolding finish
  finish-IsAccounted t none s e f v = v
  finish-IsAccounted t (some one) gone e f v =
      let a : Accounts t.waiting t.announced t.queue (some one) t.sent t.made gone =
        rw (e, f) at v in
      absurd (cc (a.1))
  finish-IsAccounted t (some one) unstaffed e f v =
      let a : Accounts t.waiting t.announced t.queue (some one) t.sent t.made unstaffed =
        rw (e, f) at v in
      rw f (omega (arith, a.0), a.1 ∙ sym (append_assoc t.made (one ∷ []) t.queue))
  finish-IsAccounted t (some one) working e f v =
      let a : Accounts t.waiting t.announced t.queue (some one) t.sent t.made working =
        rw (e, f) at v in
      rw f (omega (arith, a.0), a.1 ∙ sym (append_assoc t.made (one ∷ []) t.queue))

  panic-IsAccounted :
      (t : Turn T) (o : Option T) (s : Staff)
      → t.making ≡ o
      → t.worker ≡ s
      → IsAccounted t
      → IsAccounted (panic t o)
  unfolding panic
  panic-IsAccounted t none s e f v = v
  panic-IsAccounted t (some one) gone e f v =
      let a : Accounts t.waiting t.announced t.queue (some one) t.sent t.made gone =
        rw (e, f) at v in
      absurd (cc (a.1))
  panic-IsAccounted t (some one) unstaffed e f v =
      let a : Accounts t.waiting t.announced t.queue (some one) t.sent t.made unstaffed =
        rw (e, f) at v in
      (omega (arith, a.0), refl)
  panic-IsAccounted t (some one) working e f v =
      let a : Accounts t.waiting t.announced t.queue (some one) t.sent t.made working =
        rw (e, f) at v in
      (omega (arith, a.0), refl)

  -- A count alone: nothing that is queued or made is touched.
  announce-IsAccounted :
      (t : Turn T) (s : Staff) → t.worker ≡ s → IsAccounted t → IsAccounted (announce t)
  unfolding announce
  announce-IsAccounted t gone e v =
      let a : Accounts t.waiting t.announced t.queue t.making t.sent t.made gone = rw e at v in
      rw e (omega (arith, a.0), a.1)
  announce-IsAccounted t unstaffed e v =
      let a : Accounts t.waiting t.announced t.queue t.making t.sent t.made unstaffed = rw e at v in
      rw e (omega (arith, a.0), a.1)
  announce-IsAccounted t working e v =
      let a : Accounts t.waiting t.announced t.queue t.making t.sent t.made working = rw e at v in
      rw e (omega (arith, a.0), a.1)

  taken-IsAccounted :
      (t : Turn T) (s : Staff) (o : Option T)
      → t.worker ≡ s
      → t.making ≡ o
      → IsAccounted t
      → IsAccounted (if is_working s && is_idle o then take t t.queue else t)
  taken-IsAccounted t working none e f v = take-IsAccounted t t.queue refl e f v
  taken-IsAccounted t working (some one) e f v = v
  taken-IsAccounted t unstaffed o e f v = v
  taken-IsAccounted t gone o e f v = v

  free-IsAccounted : (t : Turn T) → IsAccounted t → IsAccounted (free t).1
  unfolding free
  free-IsAccounted t v = elim (Bool-cases (ltb 0 t.waiting)) [
    | inl counted ↦ rw counted v
    | inr none_ ↦ elim (Bool-cases t.held) [ inl h ↦ rw (none_, h) v | inr h ↦ rw (none_, h) v ]
  ]

  step-IsAccounted : (t : Turn T) (s : Step T) → IsAccounted t → IsAccounted (step t s)
  unfolding step wait release
  step-IsAccounted t staffs v = staff-IsAccounted t t.worker refl v
  step-IsAccounted t frees v = free-IsAccounted t v
  step-IsAccounted t waits v = elim (Bool-cases t.held) [ inl h ↦ rw h v | inr h ↦ rw h v ]
  step-IsAccounted t releases v = v
  step-IsAccounted t announces v = announce-IsAccounted t t.worker refl v
  step-IsAccounted t (sends one) v = elim (Bool-cases (ltb 0 t.announced)) [
    | inl counted ↦ rw counted (send-IsAccounted one t t.worker refl (ground arith) v)
    | inr none_ ↦ rw none_ v
  ]
  step-IsAccounted t takes v = taken-IsAccounted t t.worker t.making refl refl v
  step-IsAccounted t finishes v = finish-IsAccounted t t.making t.worker refl refl v
  step-IsAccounted t panics v = panic-IsAccounted t t.making t.worker refl refl v

  run-IsAccounted : (t : Turn T) (ss : List (Step T)) → IsAccounted t → IsAccounted (run t ss)
  unfolding run
  run-IsAccounted t [] v = v
  run-IsAccounted t (s ∷ ss) v = run-IsAccounted (step t s) ss (step-IsAccounted t s v)

  drained : (o : Option T) (q : List T) → length q + length (in_hand o) ≡ 0 → in_hand o ++ q ≡ []
  drained none [] e = refl
  drained none (x ∷ q) e = absurd (omega arith)
  drained (some one) q e = absurd (omega arith)

  free-ahead :
      (t : Turn T) (s : Staff)
      → t.worker ≡ s
      → IsAccounted t
      → (free t).0 ≡ true
      → (t.sent ≡ t.made) × (t.announced ≡ 0) × (t.held ≡ false)
  unfolding free
  free-ahead t gone e v h =
      let a : Accounts t.waiting t.announced t.queue t.making t.sent t.made gone = rw e at v in
      absurd (ground (arith, a.0))
  free-ahead t unstaffed e v h =
      let a : Accounts t.waiting t.announced t.queue t.making t.sent t.made unstaffed = rw e at v in
      let quiet : (t.waiting ≡ 0) × (t.held ≡ false) = ground arith in
      let all_made = drained t.making t.queue (omega (arith, a.0, quiet.0)) in
      (
        a.1 ∙ ap (λ (q : List T). t.made ++ q) all_made ∙ append-nil t.made,
        omega (arith, a.0, quiet.0),
        quiet.1,
      )
  free-ahead t working e v h =
      let a : Accounts t.waiting t.announced t.queue t.making t.sent t.made working = rw e at v in
      let quiet : (t.waiting ≡ 0) × (t.held ≡ false) = ground arith in
      let all_made = drained t.making t.queue (omega (arith, a.0, quiet.0)) in
      (
        a.1 ∙ ap (λ (q : List T). t.made ++ q) all_made ∙ append-nil t.made,
        omega (arith, a.0, quiet.0),
        quiet.1,
      )

  -- In every order in which the threads may run, the event loop is given the turn only where nobody
  -- holds it and every decision that was handed over before has been made, in the order in which
  -- they were handed over, none of them being counted and not yet sent.
  pub free-run :
      (ss : List (Step T))
      → (free (run new ss)).0 ≡ true
      → ((run new ss).sent ≡ (run new ss).made)
        × ((run new ss).announced ≡ 0)
        × ((run new ss).held ≡ false)
  unfolding new
  free-run ss h =
      let t = run new ss in
      free-ahead t t.worker refl (run-IsAccounted new ss (omega arith, refl)) h

  staff-gone : (t : Turn T) (s : Staff) → t.worker ≡ s → t.worker ≡ gone → (staff t s).worker ≡ gone
  unfolding staff
  staff-gone t unstaffed f e = cc
  staff-gone t working f e = e
  staff-gone t gone f e = e

  send-gone :
      (one : T) (t : Turn T) (s : Staff)
      → t.worker ≡ s
      → t.worker ≡ gone
      → (send one t s).1.worker ≡ gone
  unfolding send
  send-gone one t gone f e = e
  send-gone one t unstaffed f e = cc
  send-gone one t working f e = cc

  taken-gone :
      (t : Turn T) (s : Staff)
      → t.worker ≡ s
      → t.worker ≡ gone
      → (if is_working s && is_idle t.making then take t t.queue else t).worker ≡ gone
  taken-gone t unstaffed f e = e
  taken-gone t working f e = cc
  taken-gone t gone f e = e

  finish-gone : (t : Turn T) (o : Option T) → t.worker ≡ gone → (finish t o).worker ≡ gone
  unfolding finish
  finish-gone t none e = e
  finish-gone t (some one) e = e

  panic-gone : (t : Turn T) (o : Option T) → t.worker ≡ gone → (panic t o).worker ≡ gone
  unfolding panic
  panic-gone t none e = e
  panic-gone t (some one) e = refl

  step-gone : (t : Turn T) (s : Step T) → t.worker ≡ gone → (step t s).worker ≡ gone
  unfolding step staff free wait release announce send take finish panic
  step-gone t staffs e = staff-gone t t.worker refl e
  step-gone t frees e = ground arith
  step-gone t waits e = ground arith
  step-gone t releases e = e
  step-gone t announces e = e
  step-gone t (sends one) e = elim (Bool-cases (ltb 0 t.announced)) [
    | inl counted ↦ rw counted (send-gone one t t.worker refl e)
    | inr none_ ↦ rw none_ e
  ]
  step-gone t takes e = taken-gone t t.worker refl e
  step-gone t finishes e = finish-gone t t.making e
  step-gone t panics e = panic-gone t t.making e

  run-gone : (t : Turn T) (ss : List (Step T)) → t.worker ≡ gone → (run t ss).worker ≡ gone
  unfolding run
  run-gone t [] e = e
  run-gone t (s ∷ ss) e = run-gone (step t s) ss (step-gone t s e)

  free_of_gone : (t : Turn T) → t.worker ≡ gone → IsAccounted t → (free t).0 ≡ false
  unfolding free
  free_of_gone t e v =
      let a : Accounts t.waiting t.announced t.queue t.making t.sent t.made gone = rw e at v in
      ground (arith, a.0)

  panics-gone : (t : Turn T) (one : T) → t.making ≡ some one → (step t panics).worker ≡ gone
  unfolding step panic
  panics-gone t one e = rw e refl

  -- Once the queue's thread has panicked in the middle of a decision, the event loop is never given
  -- the turn again, in whatever order the threads go on, and every decision that is handed over is
  -- refused.
  pub panic-run :
      (before after : List (Step T)) (one next : T)
      → (run new before).making ≡ some one
      → ((free (run (step (run new before) panics) after)).0 ≡ false)
        × ((send next
              (run (step (run new before) panics) after)
              (run (step (run new before) panics) after).worker).0
            ≡ false)
  unfolding new send
  panic-run before after one next e =
      let t = run new before in
      let s = step t panics in
      let u = run s after in
      let accounted =
        run-IsAccounted s after
          (step-IsAccounted t panics (run-IsAccounted new before (omega arith, refl))) in
      let left : u.worker ≡ gone = run-gone s after (panics-gone t one e) in
      (free_of_gone u left accounted, rw left refl)
