-- ===== src/Contracts/Pinning/Memory.antt =====
-- A host and a store in memory, which show that what pinning relies on can hold. The host refuses
-- sectors with root 2.
use indexd.Base.{
  ℕ, ◌+◌, ◌≡◌, refl, ap, sym, ◌∙◌, ==_refl, Bool, true, false, not, ◌&&◌, ◌||◌, Option, none, some,
  List, contains, keep, ◌==◌, [], ◌∷◌, if◌then◌else◌, inl, inr, arith, Bool-cases,
}
use indexd.Base.Outcome.{Outcome, ok, err, ok_inj}
use indexd.Base.Update.{update}
use indexd.Contracts.Revision.{ContractRevision, Error, other, RevisionStore}
use indexd.Contracts.Revision.Memory.{Memory, fetch, fetch-stored}
use indexd.Contracts.Pinning.{PinCalls}
use indexd.Contracts.Pinning.Laws.{PinLaws}
use indexd.Contracts.Pinning.Batches.{BatchCalls}

pub record PinStore : Type 0 where
  pub revisions : Memory
  pub pins : ℕ → Option ℕ
  pub marks : ℕ → Bool

pub record PinWorld : Type 0 where
  pub holds : ℕ → ℕ → Bool
  pub rejected : ℕ → Bool

abbrev pub save : ContractRevision → Unit {0} → PinStore → Outcome Error PinStore
save c u s = ok (record s { revisions = update s.revisions c.id (some c.revision) })

pub save-stored :
    (c : ContractRevision) (u : Unit {0}) (s t : PinStore)
    → save c u s ≡ ok t
    → (id : ℕ) → t.revisions id ≡ (if id == c.id then some c.revision else s.revisions id)
save-stored c u s t e id = ap (λ x. x.revisions id) (sym (ok_inj e))

abbrev pub store : RevisionStore PinStore (Unit {0})
store = record {
  contract_revision = λ s id. fetch s.revisions id;
  update_contract_revision = save;
  mark_contract_bad = λ k s. ok s;
  storage_usage = λ n. tt;
  stored = λ s. s.revisions;
  fetched = λ s id r e. fetch-stored s.revisions id r e;
  updated = save-stored;
  marked = λ k s t e id. ap (λ x. x.revisions id) (sym (ok_inj e));
}

abbrev pub accepted : List ℕ → List ℕ
accepted l = keep (λ a. not (a == 2)) l

abbrev pub host_append : ℕ → List ℕ → PinWorld → PinWorld
host_append id l w = record {
  holds = λ k a. (k == id && contains (accepted l) a) || w.holds k a;
  rejected = λ a. (contains l a && not (contains (accepted l) a)) || w.rejected a;
}

abbrev pub calls : PinCalls PinStore PinWorld (Unit {0}) ℕ
calls = record {
  latest_revision = λ id w. err other;
  prices = λ w. record { world = w; result = ok 1 };
  tip_height = λ p. 100;
  append_sectors = λ c l w. record {
    world = host_append c.id l w;
    result = ok (record {
      revision = record c.revision { revision_number = c.revision.revision_number + 1 };
      usage = tt;
      sectors = accepted l;
    });
  };
  mark_sectors_lost = λ l s. ok (record s {
    pins = λ a. if contains l a then none else s.pins a;
    marks = λ a. contains l a || s.marks a;
  });
  pin_sectors = λ id l s. ok (record s { pins = λ a. if contains l a then some id else s.pins a });
  block_height = λ w. 100;
}

abbrev pub batch_calls : BatchCalls PinStore PinWorld
batch_calls = record {
  is_done = λ w. false;
  maintenance_period = λ s. ok 1000;
  contracts_for_pinning = λ s host_key max_size. ok (7 ∷ 8 ∷ []);
  unpinned_sectors = λ s host_key limit. ok [];
}

pub laws : PinLaws store calls
laws = record {
  has = λ w. w.holds;
  refused = λ w. w.rejected;
  lost = λ s. s.marks;
  pinned_to = λ s. s.pins;
  priced_grows = λ w. record { still_has = λ k a p. p; still_refused = λ a p. p };
  append_grows =
      λ c l w. record { still_has = λ k a p. ground arith; still_refused = λ a p. ground arith };
  appended_has = λ c l w res e a among.
      let same : contains (accepted l) a ≡ true =
        ap (λ x. contains x.sectors a) (ok_inj e) ∙ among in
      ground (arith, same, ==_refl c.id);
  missing_refused = λ c l w res e a tried among.
      let same : contains (accepted l) a ≡ false =
        ap (λ x. contains x.sectors a) (ok_inj e) ∙ among in
      ground (arith, same, tried);
  updated_same =
      λ c u s t e a. (ap (λ x. x.marks a) (sym (ok_inj e)), ap (λ x. x.pins a) (sym (ok_inj e)));
  bad_same =
      λ k s t e a. (ap (λ x. x.marks a) (sym (ok_inj e)), ap (λ x. x.pins a) (sym (ok_inj e)));
  marked_lost = λ l s t e a. ap (λ x. x.marks a) (sym (ok_inj e));
  marked_pins = λ l s t e a.
      let now = ap (λ x. x.pins a) (sym (ok_inj e)) in
      elim (Bool-cases (contains l a)) [
        | inl b ↦ inl (now ∙ rw b refl)
        | inr b ↦ inr (now ∙ rw b refl)
      ];
  pinned_lost = λ id l s t e a p. ap (λ x. x.marks a) (ok_inj e) ∙ p;
  pinned_pins = λ id l s t e a.
      let now = ap (λ x. x.pins a) (sym (ok_inj e)) in
      elim (Bool-cases (contains l a)) [
        | inl b ↦ inr (b, now ∙ rw b refl)
        | inr b ↦ inl (now ∙ rw b refl)
      ];
}
