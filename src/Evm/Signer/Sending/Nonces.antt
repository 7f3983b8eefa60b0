-- ===== src/Evm/Signer/Sending/Nonces.antt =====
-- The nonces of concurrent calls of `send_transaction` of src/evm/signer.rs, in every order of their
-- steps.
use pump_poly_router.Base.{
  ℕ, ◌≤◌, ◌≡◌, ◌≢◌, ◌⊎◌, inl, inr, refl, sym, ap, ◌∙◌, subst, [], Option, none, some, true, false,
  ◌==◌, ==_iff, Bool-cases,
}
use pump_poly_router.Text.{Text}
use pump_poly_router.External.{HexCodec, Crypto, Net}
use pump_poly_router.Evm.Signer.{EvmWallet}
use pump_poly_router.Evm.Signer.Sending.{
  Job, Stage, idle, holding, numbered, priced, limited, finished, is_running, release, logged, put,
  Senders, resume, resumed, acquired, Step, Reach, acquire, advance_call, outside, start, then_step,
}
use pump_poly_router.Evm.Signer.Sending.Calls.{
  Descending, IsNode, All-below, Carried-forward, Carried-still, Sound, resume-Sound,
}

-- Putting a stage in its place changes no other.
put_cases :
    (i j : ℕ) (s : Stage) (stage : ℕ → Stage)
    → ((j ≡ i) × (put i s stage j ≡ s)) ⊎ ((j ≢ i) × (put i s stage j ≡ stage j))
put_cases i j s stage = elim (Bool-cases (j == i)) [
  | inl same ↦ inl ((==_iff j i).0 same, rw same refl)
  | inr differs ↦ inr ((λ e. absurd (cc (sym differs ∙ (==_iff j i).1 e))), rw differs refl)
]

release_running : (s : Stage) (lock : Option ℕ) → is_running s ≡ true → release s lock ≡ lock
release_running idle lock e = absurd (cc e)
release_running holding lock e = refl
release_running (numbered n) lock e = refl
release_running (priced n g) lock e = refl
release_running (limited n g l) lock e = refl
release_running (finished r) lock e = absurd (cc e)

module _ {World Response Json : Type 0} (net : Net World Response Json) (hex : HexCodec)
    (crypto : Crypto) (wallet : EvmWallet) (rpc_url : Text) (count : World → ℕ)
    (node : IsNode net hex crypto wallet rpc_url count) where
  -- Only the holder of the lock runs, and every call is sound.
  record Inv (s : Senders World) : Type 0 where
    exclusive : (i : ℕ) → is_running (s.stage i) ≡ true → s.lock ≡ some i
    sound : (i : ℕ) → Sound net hex crypto wallet rpc_url count node (s.stage i) s.world s.accepted

  start_holds :
      (w : World) → Inv (record { lock = none; stage = λ i. idle; world = w; accepted = [] })
  start_holds w = record {
    exclusive = λ i e. absurd (cc e);
    sound = λ i. record { below = tt; ordered = tt; carried = tt };
  }

  -- A call other than the lock's holder is not running.
  still :
      (s : Senders World) (i j : ℕ)
      → Inv s
      → s.lock ≡ some i
      → j ≢ i
      → is_running (s.stage j) ≡ false
  still s i j inv held differs = elim (Bool-cases (is_running (s.stage j))) [
    | inr quiet ↦ quiet
    | inl runs ↦ let other = inv.exclusive j runs in absurd (differs (cc (sym other ∙ held)))
  ]

  acquire_holds :
      (s : Senders World) (i : ℕ)
      → Inv s
      → s.lock ≡ none
      → Inv (acquired net hex crypto wallet rpc_url i s)
  acquire_holds s i inv free = record {
    exclusive = λ j e. elim (put_cases i j holding s.stage) [
      | inl (same, now) ↦ ap some (sym same)
      | inr (differs, now) ↦
          let held = inv.exclusive j (ap is_running (sym now) ∙ e) in absurd (cc (sym free ∙ held))
    ];
    sound = λ j. elim (put_cases i j holding s.stage) [
      | inl (same, now) ↦
          subst (λ x. Sound net hex crypto wallet rpc_url count node x s.world s.accepted) (sym now)
            (record { below = (inv.sound i).below; ordered = (inv.sound i).ordered; carried = tt })
      | inr (differs, now) ↦
          subst (λ x. Sound net hex crypto wallet rpc_url count node x s.world s.accepted) (sym now)
            (inv.sound j)
    ];
  }

  advance_holds :
      (job : Job) (s : Senders World) (i : ℕ)
      → Inv s
      → is_running (s.stage i) ≡ true
      → Inv (resumed net hex crypto wallet rpc_url job i s)
  advance_holds job s i inv runs =
      let (after, v) = resume net hex crypto wallet rpc_url job (s.stage i) s.world in
      let held = inv.exclusive i runs in
      let log = logged (s.stage i) after s.accepted in
      let mine =
        resume-Sound net hex crypto wallet rpc_url count node job (s.stage i) s.world s.accepted
          (inv.sound i) in
      record {
        exclusive = λ j e. elim (put_cases i j after s.stage) [
          | inl (same, now) ↦
              release_running after s.lock (ap is_running (sym now) ∙ e)
              ∙ (held ∙ ap some (sym same))
          | inr (differs, now) ↦
              absurd (cc (sym (still s i j inv held differs) ∙ (ap is_running (sym now) ∙ e)))
        ];
        sound = λ j. elim (put_cases i j after s.stage) [
          | inl (same, now) ↦
              subst (λ x. Sound net hex crypto wallet rpc_url count node x v log) (sym now) mine
          | inr (differs, now) ↦
              subst (λ x. Sound net hex crypto wallet rpc_url count node x v log) (sym now)
                (record {
                  below = mine.below;
                  ordered = mine.ordered;
                  carried =
                      Carried-still net hex crypto wallet rpc_url count node (s.stage j) v log
                        (still s i j inv held differs);
                })
        ];
      }

  outside_holds :
      (s : Senders World) (w : World)
      → Inv s
      → count s.world ≤ count w
      → Inv (record s { world = w })
  outside_holds s w inv h = record {
    exclusive = inv.exclusive;
    sound = λ i. record {
      below = All-below (count s.world) (count w) s.accepted h (inv.sound i).below;
      ordered = (inv.sound i).ordered;
      carried =
          Carried-forward net hex crypto wallet rpc_url count node (s.stage i) s.world w s.accepted
            h (inv.sound i).carried;
    };
  }

  module _ (jobs : ℕ → Job) where
    Step-Inv :
        (s t : Senders World) → Inv s → Step net hex crypto wallet rpc_url jobs count s t → Inv t
    Step-Inv s _ inv (acquire i waits free) = acquire_holds s i inv free
    Step-Inv s _ inv (advance_call i runs) = advance_holds (jobs i) s i inv runs
    Step-Inv s _ inv (outside w h) = outside_holds s w inv h

    Reach-Inv : (s : Senders World) → Reach net hex crypto wallet rpc_url jobs count s → Inv s
    Reach-Inv _ (start w) = start_holds w
    Reach-Inv _ (then_step s t reach step) = Step-Inv s t (Reach-Inv s reach) step

    -- However the steps of any number of calls of `send_transaction` on one wallet, and those of other
    -- programs, are interleaved, at most one call at a time is behind the lock, and the nonces of the
    -- transactions that were accepted increase strictly: none is used twice. The node is one whose
    -- count of the wallet's transactions does not go back and is what it answers.
    pub send_transaction_nonces :
        (s : Senders World)
        → Reach net hex crypto wallet rpc_url jobs count s
        → Descending s.accepted
          × ((i j : ℕ) → is_running (s.stage i) ≡ true → is_running (s.stage j) ≡ true → i ≡ j)
    send_transaction_nonces s reach =
        let inv = Reach-Inv s reach in
        ((inv.sound 0).ordered, λ i j ri rj. cc (sym (inv.exclusive i ri) ∙ inv.exclusive j rj))
