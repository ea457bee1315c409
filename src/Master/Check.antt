-- ===== src/Master/Check.antt =====
-- What CheckAllSlavesInState of src/ec_master/ec_master.cpp establishes.
use mo_driver_pc_ether_cat.Common.{
  ℕ, zero, suc, ◌+◌, ◌≤◌, ◌<◌, ◌≡◌, refl, ◌↔◌, ◌⊎◌, inl, inr, true, arith, ◌==◌, Bool-cases,
}
use mo_driver_pc_ether_cat.Soem.{Port, Soem}
use mo_driver_pc_ether_cat.Master.{Master, all_in_state, check_all_slaves_in_state}

module _ {B : Type 0} where
  -- Every slave that the context counts was last seen in `state`.
  abbrev pub AllIn : ℕ → Port B → Type 0
  AllIn state p = (i : ℕ) → 1 ≤ i → i ≤ p.slavecount → (p.slavelist i).state ≡ state

  pub all_in_state_sound :
      (p : Port B) (state n from i : ℕ)
      → all_in_state p state n from ≡ true
      → from ≤ i
      → i < from + n
      → (p.slavelist i).state ≡ state
  unfolding all_in_state
  all_in_state_sound p state zero from i h lo hi = absurd (omega arith)
  all_in_state_sound p state (suc n) from i h lo hi = elim (Bool-cases (from == i)) [
    | inl e ↦ ground arith
    | inr e ↦ ground (arith, all_in_state_sound p state n (suc from) i)
  ]

  pub all_in_state_complete :
      (p : Port B) (state n from : ℕ)
      → ((i : ℕ) → from ≤ i → i < from + n → (p.slavelist i).state ≡ state)
      → all_in_state p state n from ≡ true
  unfolding all_in_state
  all_in_state_complete p state zero from h = refl
  all_in_state_complete p state (suc n) from h = ground (
    arith,
    h from (omega arith) (omega arith),
    all_in_state_complete p state n (suc from) (λ i lo hi. h i (omega arith) (omega arith)),
  )

module _ {B : Type 0} ⦃soem : Soem B⦄ where
  -- The check reads the bus once, and succeeds exactly when that reading shows every slave in the
  -- state that was asked for.
  pub check_all_slaves_in_state_iff :
      (state : ℕ) (m : Master B)
      → ((check_all_slaves_in_state state m).1.port ≡ soem.ecx_readstate m.port)
        × (((check_all_slaves_in_state state m).0 ≡ true)
            ↔ AllIn state (check_all_slaves_in_state state m).1.port)
  unfolding check_all_slaves_in_state
  check_all_slaves_in_state_iff state m =
      let p = soem.ecx_readstate m.port in
      (
        refl,
        (
          λ h i lo hi. all_in_state_sound p state p.slavecount 1 i h lo (omega arith),
          λ h. all_in_state_complete p state p.slavecount 1 (λ i lo hi. h i lo (omega arith)),
        ),
      )

  -- Whether a reading shows every slave in a state is decided.
  pub AllIn-cases :
      (state : ℕ) (m : Master B)
      → AllIn state (soem.ecx_readstate m.port) ⊎ (¬ AllIn state (soem.ecx_readstate m.port))
  unfolding check_all_slaves_in_state
  AllIn-cases state m =
      let check = (check_all_slaves_in_state_iff state m).1 in
      elim (Bool-cases (check_all_slaves_in_state state m).0) [
        | inl e ↦ inl (check.0 e)
        | inr e ↦ inr (λ a. let y = check.1 a in cc)
      ]
