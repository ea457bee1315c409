-- ===== src/Controller/Shutdown/Retries.antt =====
-- The calls of RequestStateWithRetry and RequestState of src/ec_master/ec_master.cpp.
use mo_driver_pc_ether_cat.Common.{
  ℕ, zero, suc, ◌+◌, ◌*◌, ◌≤◌, ◌≡◌, refl, Bool, List, ◌∷◌, arith, length, if_rule, bit_and, bit_or,
  ◌==◌,
}
use mo_driver_pc_ether_cat.Soem.{Port, Soem, state_pre_op, state_safe_op, state_error}
use mo_driver_pc_ether_cat.Soem.Calls.{Call, Recorded, recorded, calls_of}
use mo_driver_pc_ether_cat.Master
use mo_driver_pc_ether_cat.Master.{Master, retry_loop, acknowledge, attempt}

-- A state written to all slaves and waited for.
abbrev pub asked : ℕ → List Call → List Call
asked s cs = Call.checks 0 s ∷ Call.writes 0 s ∷ cs

-- An error of all slaves acknowledged, which was read as `actual`.
abbrev pub acked : ℕ → List Call → List Call
acked actual cs =
    Call.checks 0 (bit_and actual 0x0f)
    ∷ Call.writes 0 (bit_or (bit_and actual 0x0f) state_error)
    ∷ cs

-- The calls of at most `rounds` rounds of RequestStateWithRetry, from the first record to the
-- second.
pub data Rounds (state : ℕ) : (rounds : ℕ) → List Call → List Call → Type 0 where
  spent : {cs : List Call} → Rounds state zero cs cs
  there : {n : ℕ} {cs : List Call} → Rounds state (suc n) cs (Call.reads ∷ cs)
  reached : {n : ℕ} {cs : List Call} → Rounds state (suc n) cs (asked state (Call.reads ∷ cs))
  refused :
      {n : ℕ} {cs ds : List Call}
      → Rounds state n (asked state (Call.reads ∷ cs)) ds
      → Rounds state (suc n) cs ds
  failed :
      {n : ℕ} {cs ds : List Call} (actual : ℕ)
      → Rounds state n (acked actual (Call.reads ∷ cs)) ds
      → Rounds state (suc n) cs ds

pub Rounds-length :
    {state n : ℕ} {cs ds : List Call} → Rounds state n cs ds → length ds ≤ length cs + 3 * n
Rounds-length Rounds.spent = omega arith
Rounds-length Rounds.there = omega arith
Rounds-length Rounds.reached = omega arith
Rounds-length (Rounds.refused r) = omega (arith, Rounds-length r)
Rounds-length (Rounds.failed actual r) = omega (arith, Rounds-length r)

module _ {B : Type 0} (soem : Soem B) where
  retry_loop-Rounds :
      (n state : ℕ) (p : Port (Recorded B))
      → Rounds state n (calls_of p) (calls_of (retry_loop ⦃soem = recorded soem⦄ n 0 state p).1)
  unfolding retry_loop acknowledge attempt
  retry_loop-Rounds zero state p = Rounds.spent
  retry_loop-Rounds (suc n) state p =
      let s : Soem (Recorded B) = recorded soem in
      let read = s.ecx_readstate p in
      let actual = (read.slavelist 0).state in
      let tried = attempt ⦃soem = s⦄ 0 state read in
      let R =
        (λ (r : Bool × Port (Recorded B)). Rounds state (suc n) (calls_of p) (calls_of r.1)) in
      if_rule R (actual == state) Rounds.there (
        if_rule R (bit_and actual state_error == 0)
          (if_rule R ((tried.slavelist 0).state == state) Rounds.reached
            (Rounds.refused (retry_loop-Rounds n state tried)))
          (Rounds.failed actual (retry_loop-Rounds n state (acknowledge ⦃soem = s⦄ 0 actual read))))

  pub request_pre_op-Rounds :
      (m : Master (Recorded B))
      → Rounds state_pre_op 4
          (calls_of m.port)
          (calls_of (Master.request_pre_op_state ⦃soem = recorded soem⦄ m).1.port)
  unfolding Master.request_pre_op_state Master.request_state_with_retry
  request_pre_op-Rounds m = retry_loop-Rounds 4 state_pre_op m.port

  pub request_safe_op-asked :
      (m : Master (Recorded B))
      → calls_of (Master.request_safe_op_state ⦃soem = recorded soem⦄ m).1.port
        ≡ asked state_safe_op (calls_of m.port)
  unfolding Master.request_safe_op_state Master.request_state
  request_safe_op-asked m = refl
