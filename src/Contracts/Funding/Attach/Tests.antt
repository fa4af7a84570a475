-- ===== src/Contracts/Funding/Attach/Tests.antt =====
-- Attaching three accounts in memory, and the theorem at them.
use indexd.Base.{ℕ, ◌+◌, ◌≡◌, refl, sym, some, List, [], ◌∷◌, ◌++◌, length, map, take, drop, arith}
use indexd.Base.Outcome.{ok, ok_inj}
use indexd.Contracts.Funding.Attach.{
  PendingAttachment, PoolAttachInput, attach_input, AttachCalls, attach_loop, attach_pools,
}
use indexd.Contracts.Funding.Attach.Attached.{AttachLaws, AllAttached, attach_loop-AllAttached}

record Pools : Type 0 where
  waiting : List PendingAttachment
  on_host : List PoolAttachInput

abbrev calls : AttachCalls Pools
calls = record {
  pending = λ w n. ok (take n w.waiting);
  attach = λ l w. record { world = record w { on_host = w.on_host ++ l }; result = ok tt };
  note_attached =
      λ l w. record { world = record w { waiting = drop (length l) w.waiting }; result = ok tt };
}

abbrev laws : AttachLaws calls
laws = record {
  due = λ w. w.waiting;
  attached = λ w. w.on_host;
  pending_due = λ w n l e. sym (ok_inj e);
  attach_due = λ l w. refl;
  attach_attached = λ l w e. refl;
  note_attached = λ l w. refl;
  note_due = λ l w e. refl;
}

abbrev account : ℕ → PendingAttachment
account n = record { account_key = n; pool_key = n + 10 }

abbrev three : Pools
three = record { waiting = account 1 ∷ account 2 ∷ account 3 ∷ []; on_host = [] }

attaches_three :
    attach_pools calls calls 2 3 three
    ≡ some (record {
      world = record {
        waiting = [];
        on_host = map attach_input (account 1 ∷ account 2 ∷ account 3 ∷ []);
      };
      result = ok tt;
    })
unfolding attach_pools attach_loop
attaches_three = refl

attach_loop-AllAttached_example : AllAttached calls laws three (attach_loop calls 2 2 three)
attach_loop-AllAttached_example =
    attach_loop-AllAttached calls laws 2 (omega arith) 2 three (omega arith)
