-- ===== src/Pair/Contract/Creation.antt =====
-- The creation of a pair: the reply of its token sets the token and asks for the staking contract, and
-- that contract is created for this token.
use wynddex.Base.{
  ℕ, ◌≡◌, refl, sym, ◌∙◌, ap, arith, false, not, List, [], ◌∷◌, Option, some, some-injective, ok,
  >>=-eq-ok, ok-injective, ok_or, ok_or-eq-ok, map_err-eq-ok, fail_if, fail_if-eq-ok, ◌==◌,
}
use wynddex.Host.{Host}
use wynddex.Platform.{not_found, generic_err, MessageInfo}
use wynddex.Stake.Store
use wynddex.Stake.Admin
use wynddex.Pair.State.{Store, lift, std, Querier, no_address, liquidity_token_already_set}
use wynddex.Pair.Referral.{query_factory_config}
use wynddex.Pair.Contract.{SubMsg, create_staking, into_init_msg, reply, instantiate_lp_token_reply}

is_unset : (a : ℕ) → not (a == no_address) ≡ false → a ≡ no_address
is_unset a e = ground arith

maybe_addr-some :
    ⦃h : Host⦄ (a : ℕ) {stored : Option ℕ}
    → Admin.maybe_addr (some a) ≡ ok stored
    → (v : ℕ) × (h.addr_validate a ≡ some v) × (stored ≡ some v)
unfolding Admin.maybe_addr
maybe_addr-some ⦃h⦄ a e =
    let (v, e_v, e1) = >>=-eq-ok (Store.std_or_fail (h.addr_validate a)) _ e in
    (v, ok_or-eq-ok _ _ e_v, sym (ok-injective e1))

module _ {C : Type 0} ⦃h : Host⦄ where
  staking_admin :
      (info : MessageInfo) (msg : Admin.InstantiateMsg) (a : ℕ) {t : Store.Store C}
      → Admin.instantiate info msg ≡ ok t
      → msg.admin ≡ some a
      → (v : ℕ) × (h.addr_validate a ≡ some v) × (t.admin ≡ some v)
  unfolding Admin.instantiate
  staking_admin info msg a {t = t} e is =
      let (stored, e_s, e1) = >>=-eq-ok (Admin.maybe_addr msg.admin) _ e in
      let (cw20, e_c, e2) =
        >>=-eq-ok (Store.std_or_fail (h.addr_validate msg.cw20_contract)) _ e1 in
      let (unbonder, e_u, e3) = >>=-eq-ok (Admin.maybe_addr msg.unbonder) _ e2 in
      let (converter, e_v, e4) = >>=-eq-ok (Admin.validate_converter msg.converter) _ e3 in
      let (v, valid, is_v) = maybe_addr-some a (rw is at e_s) in
      (v, valid, ap (λ (t : Store.Store C). t.admin) (sym (ok-injective e4)) ∙ is_v)

  staking_cw20 :
      (info : MessageInfo) (msg : Admin.InstantiateMsg) {t : Store.Store C}
      → Admin.instantiate info msg ≡ ok t
      → h.addr_validate msg.cw20_contract ≡ some t.config.cw20_contract
  unfolding Admin.instantiate
  staking_cw20 info msg {t = t} e =
      let (stored, e_s, e1) = >>=-eq-ok (Admin.maybe_addr msg.admin) _ e in
      let (cw20, e_c, e2) =
        >>=-eq-ok (Store.std_or_fail (h.addr_validate msg.cw20_contract)) _ e1 in
      let (unbonder, e_u, e3) = >>=-eq-ok (Admin.maybe_addr msg.unbonder) _ e2 in
      let (converter, e_v, e4) = >>=-eq-ok (Admin.validate_converter msg.converter) _ e3 in
      ok_or-eq-ok _ _ e_c
      ∙ ap (λ (t : Store.Store C). some t.config.cw20_contract) (ok-injective e4)

module _ ⦃h : Host⦄ ⦃q : Querier⦄ where
  -- The staking message of a reply, and the token that was stored.
  abbrev pub IsForToken : Store → ℕ → Store → SubMsg → Type 0
  IsForToken s lp s1 sub =
      (owner : ℕ) × (code : ℕ) × (msg : Admin.InstantiateMsg) × (sub
        ≡ create_staking owner code msg)
      × (msg.cw20_contract ≡ lp)
      × (msg.admin ≡ some s.config.factory_addr)
      × (h.addr_validate lp ≡ some s1.config.pair_info.liquidity_token)
      × (s.config.pair_info.liquidity_token ≡ no_address)

  token_reply :
      (s : Store) (lp : ℕ) {r : Store × List SubMsg}
      → reply s 1 (some lp) ≡ ok r
      → (sub : SubMsg) × (r.1 ≡ sub ∷ []) × IsForToken s lp r.0 sub
  unfolding reply instantiate_lp_token_reply into_init_msg
  token_reply s lp e =
      let (u, e_u, e1) =
        >>=-eq-ok
          (fail_if (not (s.config.pair_info.liquidity_token == no_address))
            liquidity_token_already_set)
          _ e in
      let (lp_token, e_l, e2) = >>=-eq-ok (ok_or (h.addr_validate lp) (std generic_err)) _ e1 in
      let (cfg, e_c, e3) = >>=-eq-ok (ok_or s.tmp_staking_config (std not_found)) _ e2 in
      let (sub, e_s, e4) = >>=-eq-ok (lift (into_init_msg cfg lp s.config.factory_addr)) _ e3 in
      let (fc, e_f, e5) =
        >>=-eq-ok (query_factory_config s.config.factory_addr) _ (map_err-eq-ok std _ e_s) in
      (
        sub,
        ap (λ (r : Store × List SubMsg). r.1) (sym (ok-injective e4)),
        (
          fc.owner,
          cfg.staking_code_id,
          _,
          sym (ok-injective e5),
          refl,
          refl,
          ok_or-eq-ok _ _ e_l
              ∙ ap (λ (r : Store × List SubMsg). some r.0.config.pair_info.liquidity_token)
                  (ok-injective e4),
          is_unset s.config.pair_info.liquidity_token
              (fail_if-eq-ok _ liquidity_token_already_set e_u),
        ),
      )

module _ {C : Type 0} ⦃h : Host⦄ ⦃q : Querier⦄ where
  -- Where the reply of a pair's token succeeds and the staking contract that it asks for is created,
  -- by any account: the staking contract is for the token that the pair stored, the admin
  -- that it stores is the pair's factory, as the platform validates this address, and the pair had no
  -- token before.
  pub reply-instantiate :
      (s : Store) (lp : ℕ) (info : MessageInfo) {s1 : Store} {owner code : ℕ}
      {msg : Admin.InstantiateMsg} {t : Store.Store C}
      → reply s 1 (some lp) ≡ ok (s1, create_staking owner code msg ∷ [])
      → Admin.instantiate info msg ≡ ok t
      → (t.config.cw20_contract ≡ s1.config.pair_info.liquidity_token)
        × ((v : ℕ) × (h.addr_validate s.config.factory_addr ≡ some v) × (t.admin ≡ some v))
        × (s.config.pair_info.liquidity_token ≡ no_address)
  reply-instantiate s lp info {msg = msg} e0 e1 =
      let (sub, e_s, (owner', code', msg', is_sub, cw20, admin, valid, unset)) =
        token_reply s lp e0 in
      let same : msg ≡ msg' = cc in
      let created = staking_cw20 info msg e1 in
      let for_lp : msg.cw20_contract ≡ lp =
        ap (λ (m : Admin.InstantiateMsg). m.cw20_contract) same ∙ cw20 in
      (
        some-injective (sym created ∙ ap h.addr_validate for_lp ∙ valid),
        staking_admin info msg s.config.factory_addr e1
            (ap (λ (m : Admin.InstantiateMsg). m.admin) same ∙ admin),
        unset,
      )
