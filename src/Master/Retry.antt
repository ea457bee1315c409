-- ===== src/Master/Retry.antt =====
-- RequestState and RequestStateWithRetry of src/ec_master/ec_master.cpp.
use mo_driver_pc_ether_cat.Common.{ℕ, zero, suc, ◌≡◌, refl, true, arith, bit_and}
use mo_driver_pc_ether_cat.Soem.{Port, Soem, KeepsCount, state_error}
use mo_driver_pc_ether_cat.Master.{
  Master, retry_loop, request_state_with_retry, acknowledge, attempt,
}

-- A slave that does what is asked of it: an acknowledged error is gone at the next reading, and a
-- slave without an error goes to the state that is written.
pub record Obeys {B : Type 0} (soem : Soem B) (slave : ℕ) : Type 0 where
  pub ack_clears :
      (actual : ℕ) (p : Port B)
      → bit_and
          ((soem.ecx_readstate (acknowledge ⦃soem = soem⦄ slave actual p)).slavelist slave).state
          state_error
        ≡ 0
  pub attempt_reaches :
      (state : ℕ) (p : Port B)
      → bit_and (p.slavelist slave).state state_error ≡ 0
      → ((attempt ⦃soem = soem⦄ slave state p).slavelist slave).state ≡ state

module _ {B : Type 0} ⦃soem : Soem B⦄ where
  -- The port after one round that acknowledges an error.
  abbrev after_acknowledge : ℕ → Port B → Port B
  after_acknowledge slave p =
      let read = soem.ecx_readstate p in acknowledge slave (read.slavelist slave).state read

  retry_loop_sound :
      (rounds slave state : ℕ) (p : Port B)
      → (retry_loop rounds slave state p).0 ≡ true
      → ((retry_loop rounds slave state p).1.slavelist slave).state ≡ state
  unfolding retry_loop
  retry_loop_sound zero slave state p h = cc
  retry_loop_sound (suc n) slave state p h = ground (
    arith,
    retry_loop_sound n slave state (after_acknowledge slave p),
    retry_loop_sound n slave state (attempt slave state (soem.ecx_readstate p)),
  )

  retry_loop_count :
      (k : KeepsCount soem) (rounds slave state : ℕ) (p : Port B)
      → (retry_loop rounds slave state p).1.slavecount ≡ p.slavecount
  unfolding retry_loop acknowledge attempt
  retry_loop_count k zero slave state p = refl
  retry_loop_count k (suc n) slave state p = grind (
    arith,
    k.readstate_count,
    k.writestate_count,
    k.statecheck_count,
    retry_loop_count k n slave state (after_acknowledge slave p),
    retry_loop_count k n slave state (attempt slave state (soem.ecx_readstate p)),
  )

  -- When a request with retries succeeds, the entry of the slave holds the state that was asked for.
  pub request_state_with_retry_sound :
      (slave state max_retries : ℕ) (m : Master B)
      → (request_state_with_retry slave state max_retries m).0 ≡ true
      → ((request_state_with_retry slave state max_retries m).1.port.slavelist slave).state ≡ state
  unfolding request_state_with_retry
  request_state_with_retry_sound slave state max_retries m =
      retry_loop_sound (suc max_retries) slave state m.port
