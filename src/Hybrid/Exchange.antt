-- ===== src/Hybrid/Exchange.antt =====
-- A HAL token that one end creates and the other end redeems.
use platform_system_libhidl.Status.Codes.{StatusCodes}
use platform_system_libhidl.Status.{is_ok}
use platform_system_libhidl.Status.Return
use platform_system_libhidl.Token.{
  TokenService, TokenState, token_state, is_bad_token_manager, create_hal_token,
  retrieve_hal_interface, delete_hal_token,
}
use platform_system_libhidl.Token.Calls.{retrieve_hal_interface_lem, delete_hal_token_lem}
use platform_system_libhidl.Hybrid.{
  HybridOps, BaseInterface, proxy, converter, HpInterface, on_transact, cast_base, redeem,
  read_reply, make_hp_interface,
}
use platform_system_libhidl.Prelude.{
  ==_refl, ℤ, eqb_ℤ, eqb_ℤ_refl, Run, done, done_inj, Bytes, ℕ, refl, sym, ap, Bool, true, false,
  not, Option, none, some, [], if◌then◌else◌, ◌>>=◌, ◌≡◌, ◌∙◌,
}

module _ {I H P M W : Type 0} (o : HybridOps I H P W) (c : StatusCodes) (t : TokenService M I W)
    (get_token : ℕ) where
  -- mBase is a converter exactly of mHal, and the proxy where that is null.
  abbrev pub base_of : Option H → BaseInterface H
  base_of none = proxy
  base_of (some h) = converter h

  -- What castFrom gives of what retrieveHalInterface found.
  abbrev pub CastTo : Option I → W → Option H → W → Type 0
  CastTo none w hal w' = (hal ≡ none) × (w' ≡ w)
  CastTo (some i) w hal w' = o.cast_from i w ≡ (Return.of_value hal, w')

  cast_base_lem :
      (found : Option I) (m : Option M) (w w' : W) (hal : Option H)
      → CastTo found w hal w'
      → cast_base o c t get_token found (token_state m w)
        ≡ done (record { base = base_of hal; hal = hal }, token_state m w')
  unfolding cast_base Return.value Return.of_value
  cast_base_lem none m w w' hal (h, k) = rw (h, k) refl
  cast_base_lem (some i) m w w' none h = rw h refl
  cast_base_lem (some i) m w w' (some x) h = rw h refl

  manager_stays :
      (m : M) (w : W)
      → is_bad_token_manager t (token_state (some m) w) ≡ (false, token_state (some m) w)
  unfolding is_bad_token_manager
  manager_stays m w = refl

  redeem_lem :
      (token : Bytes) (cm : Option M) (m : M) (w w2 w3 w4 : W) (found : Option I) (hal : Option H)
      → is_bad_token_manager t (token_state cm w) ≡ (false, token_state (some m) w2)
      → t.get m token w2 ≡ (Return.of_value found, w3)
      → CastTo found w3 hal w4
      → is_ok (t.unregister m token w4).0.status ≡ true
      → redeem o c t get_token token (token_state cm w)
        ≡ done (
          record { base = base_of hal; hal = hal },
          token_state (some m) (t.unregister m token w4).1,
        )
  unfolding redeem Return.of_value
  redeem_lem token cm m w w2 w3 w4 found hal linked got cast freed =
      let retrieved : retrieve_hal_interface t token (token_state cm w)
          ≡ done (found, token_state (some m) w3) =
        retrieve_hal_interface_lem t (token_state cm w) m w2 linked token ∙ rw got refl in
      let deleted : delete_hal_token t token (token_state (some m) w4)
          ≡ done
              ((t.unregister m token w4).0.val, token_state (some m) (t.unregister m token w4).1) =
        delete_hal_token_lem t (token_state (some m) w4) m w4 (manager_stays m w4) token
        ∙ rw freed refl in
      ap
        (λ r. r >>= λ x. cast_base o c t get_token x.0 x.1 >>= λ y.
          delete_hal_token t token y.1 >>= λ z. done (y.0, z.1))
        retrieved
      ∙ ap (λ r. r >>= λ y. delete_hal_token t token y.1 >>= λ z. done (y.0, z.1))
          (cast_base_lem found (some m) w3 w4 hal cast)
      ∙ ap (λ r. r >>= λ z. done (record { base = base_of hal; hal = hal }, z.1)) deleted

  read_reply-redeem :
      (token : Bytes) (reply p' p'' : P) (s : TokenState M W)
      → o.read_bool reply ≡ (true, p')
      → o.read_byte_vector p' ≡ (token, p'')
      → read_reply o c t get_token reply s ≡ redeem o c t get_token token s
  unfolding read_reply
  read_reply-redeem token reply p' p'' s b v =
      ap
        (λ x.
          if not x.0
          then done (record { base = proxy; hal = none }, s)
          else redeem o c t get_token (o.read_byte_vector x.1).0 s)
        b
      ∙ ap (λ x. redeem o c t get_token x.0 s) v

  on_transact-create :
      (died : Bool) (i : I) (request empty : P) (flags : ℕ) (token : Bytes)
      (server server' : TokenState M W)
      → create_hal_token t died i [] server ≡ done (true, token, server')
      → on_transact o c t get_token died i get_token request empty flags server
        ≡ done (c.no_error, o.write_byte_array token (o.write_bool true empty), server')
  unfolding on_transact
  on_transact-create died i request empty flags token server server' made = rw (==_refl get_token) (
      ap (λ r. r >>= λ x. done (c.no_error, o.write_byte_array x.1 (o.write_bool x.0 empty), x.2))
        made)

  make_hp_interface-sent :
      (filled : P) (cm : Option M) (w w1 : W)
      → o.is_remote ≡ true
      → o.transact get_token o.interface_token w ≡ (c.no_error, filled, w1)
      → make_hp_interface o c t get_token (token_state cm w)
        ≡ read_reply o c t get_token filled (token_state cm w1)
  unfolding make_hp_interface
  make_hp_interface-sent filled cm w w1 remote sent =
      let answered : ℤ × P × W → Run (HpInterface H × TokenState M W) = λ x.
        if not (eqb_ℤ x.0 c.no_error)
        then done (record { base = proxy; hal = none }, token_state cm x.2)
        else read_reply o c t get_token x.1 (token_state cm x.2) in
      ap
        (λ b.
          if not b
          then done (record { base = proxy; hal = none }, token_state cm w)
          else answered (o.transact get_token o.interface_token w))
        remote
      ∙ ap answered sent
      ∙ ap
          (λ b.
            if not b
            then done (record { base = proxy; hal = none }, token_state cm w1)
            else read_reply o c t get_token filled (token_state cm w1))
          (eqb_ℤ_refl c.no_error)

  -- The two ends together. If the converter's end answers with a token that it created, the reply
  -- reaches the proxy's end, a token manager is at hand there and answers, and the cast does not
  -- fail, then the constructor ends: with a converter of what castFrom gave of the interface behind
  -- the token, or as a plain proxy where there is none, and the token is unregistered either way.
  pub make_hp_interface-on_transact :
      (died : Bool) (i : I) (empty filled p' p'' : P) (flags : ℕ) (server server' : TokenState M W)
      (token : Bytes) (cm : Option M) (m : M) (w w1 w2 w3 w4 : W) (found : Option I)
      (hal : Option H)
      → o.is_remote ≡ true
      → create_hal_token t died i [] server ≡ done (true, token, server')
      → o.read_bool (o.write_byte_array token (o.write_bool true empty)) ≡ (true, p')
      → o.read_byte_vector p' ≡ (token, p'')
      → on_transact o c t get_token died i get_token o.interface_token empty flags server
        ≡ done (c.no_error, filled, server')
      → o.transact get_token o.interface_token w ≡ (c.no_error, filled, w1)
      → is_bad_token_manager t (token_state cm w1) ≡ (false, token_state (some m) w2)
      → t.get m token w2 ≡ (Return.of_value found, w3)
      → CastTo found w3 hal w4
      → is_ok (t.unregister m token w4).0.status ≡ true
      → make_hp_interface o c t get_token (token_state cm w)
        ≡ done (
          record { base = base_of hal; hal = hal },
          token_state (some m) (t.unregister m token w4).1,
        )
  make_hp_interface-on_transact died i empty filled p' p'' flags server server' token cm m w w1 w2
        w3 w4 found hal remote made b v served sent linked got cast freed =
      let reply : filled ≡ o.write_byte_array token (o.write_bool true empty) =
        ap (λ x. x.1)
          (done_inj _ _ (
            sym served
            ∙ on_transact-create died i o.interface_token empty flags token server server' made)) in
      (make_hp_interface-sent filled cm w w1 remote sent
        ∙ read_reply-redeem token filled p' p'' (token_state cm w1) (ap o.read_bool reply ∙ b) v
        ∙ redeem_lem token cm m w1 w2 w3 w4 found hal linked got cast freed)
