-- ===== src/Contracts/Funding/Attach/Attached.antt =====
-- The loop of `AttachPools` ends, and attaches all that is pending.
use native.Mathlib.Nat.{suc-mul}
use mathlib.Core.List.{append_assoc, append-nil, map-append}
use indexd.Base.{
  ℕ, zero, suc, ◌+◌, ◌*◌, ◌≡◌, ◌≤◌, ◌<◌, refl, ap, sym, ◌∙◌, Option, some, List, [], ◌∷◌, ◌++◌,
  length, map, take, drop, min, ltb, length-take, length-drop, take-append-drop, arith, Bool-cases,
  inl, inr,
}
use indexd.Base.Outcome.{Outcome, ok, err, panic}
use indexd.Contracts.Revision.{Error, Called}
use indexd.Contracts.Funding.Attach.{
  PendingAttachment, PoolAttachInput, attach_input, AttachCalls, after_note, after_attach,
  attach_batch, attach_loop,
}

-- What is pending, in the store's order, and what the host has attached. Recording a batch takes it
-- off what is pending.
pub record AttachLaws {W : Type 0} (calls : AttachCalls W) : Type 0 where
  pub due : W → List PendingAttachment
  pub attached : W → List PoolAttachInput
  pub pending_due :
      (w : W) (n : ℕ) (l : List PendingAttachment) → calls.pending w n ≡ ok l → l ≡ take n (due w)
  pub attach_due : (l : List PoolAttachInput) (w : W) → due (calls.attach l w).world ≡ due w
  pub attach_attached :
      (l : List PoolAttachInput) (w : W)
      → (calls.attach l w).result ≡ ok tt
      → attached (calls.attach l w).world ≡ attached w ++ l
  pub note_attached :
      (l : List PendingAttachment) (w : W) → attached (calls.note_attached l w).world ≡ attached w
  pub note_due :
      (l : List PendingAttachment) (w : W)
      → (calls.note_attached l w).result ≡ ok tt
      → due (calls.note_attached l w).world ≡ drop (length l) (due w)

take_own : {A : Type 0} (n : ℕ) (xs : List A) → take n xs ≡ take (length (take n xs)) xs
take_own zero xs = refl
take_own (suc n) [] = refl
take_own (suc n) (x ∷ xs) = ap (◌∷◌ x) (take_own n xs)

empty_of_length : {A : Type 0} (xs : List A) → length xs ≡ 0 → xs ≡ []
empty_of_length [] e = refl
empty_of_length (x ∷ xs) e = absurd (omega arith)

empty_of : {A : Type 0} (n : ℕ) (xs : List A) → 0 < n → [] ≡ take n xs → xs ≡ []
empty_of zero xs pos e = absurd (omega arith)
empty_of (suc n) [] pos e = refl
empty_of (suc n) (x ∷ xs) pos e = absurd (omega (arith, ap length e))

not_ok-err : {e : Error} → ◌≡◌ {A = Outcome Error (Unit {0})} (err e) (ok tt) → ⊥
not_ok-err p = cc

-- What a run of the loop from `w` comes to: it returned, and if without an error, then all that was
-- pending is attached and recorded.
abbrev pub AllAttached :
    {W : Type 0} (calls : AttachCalls W)
    → AttachLaws calls
    → W
    → Option (Called W (Unit {0}))
    → Type 0
AllAttached {W} calls laws w o =
    (r : Called W (Unit {0})) × (o ≡ some r)
    × (r.result ≡ ok tt
        → (laws.due r.world ≡ [])
          × (laws.attached r.world ≡ laws.attached w ++ map attach_input (laws.due w)))

module _ {W : Type 0} (calls : AttachCalls W) (laws : AttachLaws calls) (batch_size : ℕ)
    (pos : 0 < batch_size) where
  open laws use {due, attached}

  -- What is left after a batch.
  abbrev Rest : W → List PendingAttachment → W → Type 0
  Rest w batch u =
      (due u ≡ drop (length batch) (due w)) × (attached u ≡ attached w ++ map attach_input batch)

  rest-joins :
      (w u : W) (batch : List PendingAttachment)
      → batch ≡ take (length batch) (due w)
      → Rest w batch u
      → attached u ++ map attach_input (due u) ≡ attached w ++ map attach_input (due w)
  rest-joins w u batch prefix rest =
      let n = length batch in
      let parts : batch ++ drop n (due w) ≡ due w =
        ap (λ l. l ++ drop n (due w)) prefix ∙ take-append-drop n (due w) in
      ap (λ l. l ++ map attach_input (due u)) rest.1
      ∙ append_assoc (attached w) (map attach_input batch) (map attach_input (due u))
      ∙ ap (λ l. attached w ++ (map attach_input batch ++ map attach_input l)) rest.0
      ∙ ap (λ l. attached w ++ l) (sym (map-append attach_input batch (drop n (due w))))
      ∙ ap (λ l. attached w ++ map attach_input l) parts

  module _ (again : W → Option (Called W (Unit {0}))) (w : W) (batch : List PendingAttachment)
      (prefix : batch ≡ take batch_size (due w))
      (goes_on : (u : W)
        → length (due u) + batch_size ≤ length (due w)
        → AllAttached calls laws u (again u)) where
    after_note-AllAttached :
        (u : W) (r : Outcome Error (Unit {0}))
        → attached u ≡ attached w ++ map attach_input batch
        → (r ≡ ok tt → due u ≡ drop (length batch) (due w))
        → AllAttached calls laws w
            (after_note calls batch_size again (ltb (length batch) batch_size) u r)
    unfolding after_note
    after_note-AllAttached u (err e) made noted = (_, refl, λ p. absurd (not_ok-err p))
    after_note-AllAttached u panic made noted = (_, refl, λ p. cc)
    after_note-AllAttached u (ok t) made noted =
        let size : length batch ≡ min batch_size (length (due w)) =
          ap length prefix ∙ length-take batch_size (due w) in
        let left = noted refl in
        let left_size : length (due u) ≡ length (drop (length batch) (due w)) = ap length left in
        let dropped = length-drop (length batch) (due w) in
        let own : batch ≡ take (length batch) (due w) =
          prefix ∙ take_own batch_size (due w) ∙ ap (λ l. take (length l) (due w)) (sym prefix) in
        let joined = rest-joins w u batch own (left, made) in
        elim (Bool-cases (ltb (length batch) batch_size)) [
          | inl last ↦
              let none_due : due u ≡ [] =
                empty_of_length (due u) (ground (arith, size, left_size, dropped)) in
              let all_made : attached u ≡ attached w ++ map attach_input (due w) =
                sym (append-nil (attached u))
                ∙ ap (λ l. attached u ++ map attach_input l) (sym none_due)
                ∙ joined in
              rw last (_, refl, λ p. (none_due, all_made))
          | inr full ↦
              let inner = goes_on u (ground (arith, size, left_size, dropped)) in
              rw full (inner.0, inner.1, λ p. ((inner.2 p).0, (inner.2 p).1 ∙ joined))
        ]

    after_attach-AllAttached :
        (u : W) (r : Outcome Error (Unit {0}))
        → due u ≡ due w
        → (r ≡ ok tt → attached u ≡ attached w ++ map attach_input batch)
        → AllAttached calls laws w (after_attach calls batch_size again batch u r)
    unfolding after_attach
    after_attach-AllAttached u (err e) same made = (_, refl, λ p. absurd (not_ok-err p))
    after_attach-AllAttached u panic same made = (_, refl, λ p. cc)
    after_attach-AllAttached u (ok t) same made =
        let r = calls.note_attached batch u in
        after_note-AllAttached r.world r.result (laws.note_attached batch u ∙ made refl)
          (λ p. laws.note_due batch u p ∙ ap (drop (length batch)) same)

  attach_batch-AllAttached :
      (again : W → Option (Called W (Unit {0}))) (w : W)
      (o : Outcome Error (List PendingAttachment))
      → ((l : List PendingAttachment) → o ≡ ok l → l ≡ take batch_size (due w))
      → ((u : W)
          → length (due u) + batch_size ≤ length (due w)
          → AllAttached calls laws u (again u))
      → AllAttached calls laws w (attach_batch calls batch_size again w o)
  unfolding attach_batch
  attach_batch-AllAttached again w (err e) is_due goes_on = (_, refl, λ p. absurd (not_ok-err p))
  attach_batch-AllAttached again w panic is_due goes_on = (_, refl, λ p. cc)
  attach_batch-AllAttached again w (ok []) is_due goes_on =
      let none_due = empty_of batch_size (due w) pos (is_due [] refl) in
      let nothing : attached w ≡ attached w ++ map attach_input (due w) =
        sym (append-nil (attached w)) ∙ ap (λ l. attached w ++ map attach_input l) (sym none_due) in
      (_, refl, λ p. (none_due, nothing))
  attach_batch-AllAttached again w (ok (x ∷ batch)) is_due goes_on =
      let inputs = map attach_input (x ∷ batch) in
      let r = calls.attach inputs w in
      after_attach-AllAttached again w (x ∷ batch) (is_due (x ∷ batch) refl) goes_on r.world
        r.result (laws.attach_due inputs w) (λ p. laws.attach_attached inputs w p)

  -- With fuel for one more round than there are full batches pending, the loop of `AttachPools`
  -- returns, and if it returns no error the host has attached, in order, all that was pending, and
  -- nothing is pending any more.
  pub attach_loop-AllAttached :
      (fuel : ℕ) (w : W)
      → length (due w) < fuel * batch_size
      → AllAttached calls laws w (attach_loop calls batch_size fuel w)
  unfolding attach_loop
  attach_loop-AllAttached zero w enough = absurd (omega arith)
  attach_loop-AllAttached (suc fuel) w enough =
      attach_batch-AllAttached (attach_loop calls batch_size fuel) w (calls.pending w batch_size)
        (laws.pending_due w batch_size)
        (λ u fewer.
          attach_loop-AllAttached fuel u (omega (arith, suc-mul fuel batch_size, enough, fewer)))
