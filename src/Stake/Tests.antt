-- ===== src/Stake/Tests.antt =====
-- A concrete platform and a concrete storage of the staking contract, for the examples.
mod Examples
mod Parts
mod Calls
pub use wynddex.Base.{value}
use wynddex.Base.{
  ℕ, ◌+◌, ◌*◌, ◌≡◌, refl, arith, Bool, true, false, not, List, [], ◌∷◌, ◌++◌, some, none, filter,
  sum_by, sum_by-append, leb, if◌then◌else◌, Result, ok, err, panic,
}
use wynddex.Asset.{native, AssetInfo}
use wynddex.Host.{Host, Claim, Curves, KeepsClaims, claimed}
use wynddex.Stake.State.{Config, TokenInfo, TotalStake, Distribution, BondingInfo, ConverterConfig}
use wynddex.Stake.Store.{Store, Env, MessageInfo}

abbrev due : ℕ → List Claim → ℕ
due now [] = 0
due now (c ∷ cs) = if leb c.release_at now then c.amount + due now cs else due now cs

abbrev open_claims : ℕ → List Claim → List Claim
open_claims now [] = []
open_claims now (c ∷ cs) =
    if leb c.release_at now then open_claims now cs else c ∷ open_claims now cs

-- Every address is valid, decimals are whole numbers, and times are in seconds.
instance abbrev pub host : Host
host = record {
  addr_validate = λ a. some a;
  is_ibc = λ d. false;
  is_lowercase = λ d. true;
  mul_decimal = λ a d. some (a * d);
  plus_seconds = λ t s. some (t + s);
  seconds = λ t. t;
  from_seconds = λ s. some (s * 1000000000);
  create_claim = λ cs amount at. cs ++ record { amount = amount; release_at = at } ∷ [];
  claim_tokens = λ cs now. (due now cs, open_claims now cs);
  is_admin = λ a sender. elim a [ none ↦ false | some x ↦ true ];
  execute_update_admin = λ old sender new. some new;
}

due-open_claims :
    (now : ℕ) (cs : List Claim) → due now cs + claimed (open_claims now cs) ≡ claimed cs
due-open_claims now [] = refl
due-open_claims now (c ∷ cs) = ground (arith, due-open_claims now cs)

pub host-KeepsClaims : KeepsClaims host
host-KeepsClaims = record {
  creates = λ cs amount at.
      omega (
        arith,
        sum_by-append (λ c. c.amount) cs (record { amount = amount; release_at = at } ∷ []),
      );
  releases = λ cs now. due-open_claims now cs;
}

-- Constant curves.
instance abbrev pub curves : Curves ℕ
curves = record {
  constant = λ y. y;
  saturating_linear = λ a b. a.1;
  value = λ c x. c;
  range = λ c. (0, c);
  combine = λ a b. a + b;
  is_monotonic_decreasing = λ c. true;
}

abbrev pub config0 : Config
config0 = record {
  cw20_contract = 7;
  instantiator = 8;
  tokens_per_power = 1;
  min_bond = 5;
  unbonding_periods = 10 ∷ 20 ∷ [];
  max_distributions = 2;
  unbonder = some 9;
  converter = some (record { contract = 11; pair_to = 12 });
}

abbrev pub flow0 : Distribution
flow0 = record {
  shares_per_point = 0;
  shares_leftover = 0;
  distributed_total = 0;
  withdrawable_total = 0;
  manager = 9;
  reward_multipliers = (10, 1) ∷ (20, 2) ∷ [];
}

abbrev pub bond0 : BondingInfo
bond0 = record { stake = 100; locked_tokens = [] }

-- Account 1 has bonded 100 for 10 seconds and has an open claim of 3; one flow of rewards is set up.
abbrev pub store0 : Store ℕ
store0 = record {
  config = config0;
  admin = some 9;
  claims = (1, record { amount = 3; release_at = 100 } ∷ []) ∷ [];
  reward_curve = (native 50, 0) ∷ [];
  total_staked = record { staked = 100; unbonding = 3 };
  total_per_period =
      (10, record { staked = 100; powered_stake = 100 })
      ∷ (20, record { staked = 0; powered_stake = 0 })
      ∷ [];
  stake = (1, (10, bond0) ∷ []) ∷ [];
  distribution = (native 50, flow0) ∷ [];
  withdraw_adjustment = [];
  delegated = [];
  unbond_all = false;
}

abbrev pub env0 : Env
env0 = record { block_time = 200; contract = 6 }

abbrev pub from_staker : MessageInfo
from_staker = record { sender = 1; funds = [] }
