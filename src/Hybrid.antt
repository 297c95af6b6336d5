-- ===== src/Hybrid.antt =====
-- transport/token/1.0/utils/include/hidl/HybridInterface.h: the two ends that exchange a HAL token,
-- H2BConverter::onTransact and the constructor of HpInterface, and asInterface. I: HIDL interfaces
-- (IBase), H: interfaces of the HAL type, P: parcels, W: the world, M: token managers.
pub mod Exchange
use platform_system_libhidl.Status.Codes.{StatusCodes}
use platform_system_libhidl.Status.Return
use platform_system_libhidl.Status.Return.{Return}
use platform_system_libhidl.Token.{
  TokenService, TokenState, create_hal_token, retrieve_hal_interface, delete_hal_token,
}
use platform_system_libhidl.Prelude.{
  ℤ, eqb_ℤ, Run, done, Bytes, ℕ, Bool, not, Option, none, some, [], ◌==◌, if◌then◌else◌, ◌>>=◌,
  ◌>>◌,
}

-- What the code asks of Parcel and of the binder object behind a proxy.
pub record HybridOps (I H P W : Type 0) : Type 0 where
  pub write_bool : Bool → P → P
  pub write_byte_array : Bytes → P → P
  pub read_bool : P → Bool × P
  pub read_byte_vector : P → Bytes × P
  -- writeInterfaceToken(BaseInterface::getInterfaceDescriptor()) on a new parcel
  pub interface_token : P
  -- BNINTERFACE::onTransact
  pub super_on_transact : (code : ℕ) → (request reply : P) → (flags : ℕ) → W → ℤ × P × W
  -- mImpl->remoteBinder() != nullptr
  pub is_remote : Bool
  -- mImpl->transact, with the reply
  pub transact : (code : ℕ) → (request : P) → W → ℤ × P × W
  -- HalInterface::castFrom
  pub cast_from : I → W → Return (Option H) × W

-- mBase: the proxy mBp, or a converter of mHal.
pub data BaseInterface (H : Type 0) : Type 0 where
  proxy : BaseInterface H
  converter : H → BaseInterface H

pub record HpInterface (H : Type 0) : Type 0 where
  pub base : BaseInterface H
  pub hal : Option H

module _ {I H P M W : Type 0} (o : HybridOps I H P W) (c : StatusCodes) (t : TokenService M I W)
    (get_token : ℕ) where
  -- H2BConverter::onTransact of a converter of `base`; `died` is as in createHalToken.
  unfoldable pub on_transact :
      (died : Bool)
      → I
      → (code : ℕ) → (request reply : P) → (flags : ℕ) → TokenState M W
      → Run (ℤ × P × TokenState M W)
  unfolding create_hal_token
  on_transact died base code request reply flags s =
      if code == get_token
      then (do
        (result, token, s') ← create_hal_token t died base [] s
        done (c.no_error, o.write_byte_array token (o.write_bool result reply), s'))
      else (let (status, reply', w) = o.super_on_transact code request reply flags s.world in
          done (status, reply', record s { world = w }))

  abbrev proxied : HpInterface H
  proxied = record { base = proxy; hal = none }

  -- mHal and mBase after the cast of what retrieveHalInterface found.
  unfoldable pub cast_base : Option I → TokenState M W → Run (HpInterface H × TokenState M W)
  unfolding Return.value
  cast_base none s = done (proxied, s)
  cast_base (some h_base) s =
      let (ret, w) = o.cast_from h_base s.world in
      do
        (hal, ret') ← Return.value ret
        done (
          elim hal [ none ↦ proxied | some h ↦ record { base = converter h; hal = some h } ],
          record s { world = w },
        )

  -- The part of the constructor for a token that was created.
  unfoldable pub redeem : Bytes → TokenState M W → Run (HpInterface H × TokenState M W)
  unfolding cast_base retrieve_hal_interface delete_hal_token
  redeem token s = do
    (h_base, s1) ← retrieve_hal_interface t token s
    (hp, s2) ← cast_base h_base s1
    (deleted, s3) ← delete_hal_token t token s2
    done (hp, s3)

  -- The part of the constructor behind the reply.
  unfoldable pub read_reply : P → TokenState M W → Run (HpInterface H × TokenState M W)
  unfolding redeem
  read_reply reply s =
      let (token_created, reply') = o.read_bool reply in
      let (token, reply'') = o.read_byte_vector reply' in
      if not token_created then done (proxied, s) else redeem token s

  unfoldable pub make_hp_interface : TokenState M W → Run (HpInterface H × TokenState M W)
  unfolding read_reply
  make_hp_interface s =
      if not o.is_remote
      then done (proxied, s)
      else (let (status, reply, w) = o.transact get_token o.interface_token s.world in
          let s' : TokenState M W = record s { world = w } in
          if not (eqb_ℤ status c.no_error) then done (proxied, s') else read_reply reply s')

-- asInterface: the interface that the object has itself, or a new HpInterface, which `make` makes.
unfoldable pub as_interface :
    {B A : Type 0}
    → (query_local_interface : B → Option A) → (make : B → Run A) → Option B
    → Run (Option A)
as_interface query_local_interface make none = done none
as_interface query_local_interface make (some obj) = elim (query_local_interface obj) [
  | none ↦ (make obj >>= λ a. done (some a))
  | some a ↦ done (some a)
]
