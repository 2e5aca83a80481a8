-- ===== src/Stake/Power/Loads.antt =====
-- What is read back from the stored bonds after one of them is saved.
use wynddex.Base.{ℕ, ◌≡◌, ◌≢◌, ap, ◌∙◌, arith, [], unwrap_or}
use wynddex.Map.{lookup, insert, lookup-insert, lookup-insert_self, nat_key}
use wynddex.Stake.State.{BondingInfo}
use wynddex.Stake.Bonding.{no_bond}
use wynddex.Stake.Power.{Stakes, load_stake, save_stake, periods_of}

pub load-save_stake_self :
    (m : Stakes) (staker period : ℕ) (b : BondingInfo)
    → load_stake (save_stake m staker period b) staker period ≡ b
unfolding save_stake
load-save_stake_self m staker period b =
    let row = periods_of m staker in
    ap (λ r. unwrap_or (lookup period (unwrap_or r [])) no_bond)
      (lookup-insert_self staker (insert period b row) m)
    ∙ ap (λ r. unwrap_or r no_bond) (lookup-insert_self period b row)

pub load-save_stake_period :
    (m : Stakes) (staker period other : ℕ) (b : BondingInfo)
    → period ≢ other
    → load_stake (save_stake m staker period b) staker other ≡ load_stake m staker other
unfolding save_stake
load-save_stake_period m staker period other b ne =
    let row = periods_of m staker in
    let miss : lookup other (insert period b row) ≡ lookup other row =
      rw (lookup-insert period other b row) (ground arith) in
    ap (λ r. unwrap_or (lookup other (unwrap_or r [])) no_bond)
      (lookup-insert_self staker (insert period b row) m)
    ∙ ap (λ r. unwrap_or r no_bond) miss

pub load-save_stake_staker :
    (m : Stakes) (staker other period period' : ℕ) (b : BondingInfo)
    → staker ≢ other
    → load_stake (save_stake m staker period b) other period' ≡ load_stake m other period'
unfolding save_stake
load-save_stake_staker m staker other period period' b ne =
    let row = periods_of m staker in
    let miss : lookup other (insert staker (insert period b row) m) ≡ lookup other m =
      rw (lookup-insert staker other (insert period b row) m) (ground arith) in
    ap (λ r. unwrap_or (lookup period' (unwrap_or r [])) no_bond) miss
