-- ===== src/Casts.antt =====
-- transport/HidlTransportUtils.cpp, transport/include/hidl/HidlTransportSupport.h: the cast of an
-- interface to a child type. The remote call interfaceChain() is a parameter: the types that it
-- hands its callback, if it calls it, the result, and the world `W` afterwards.
pub mod Outcomes
use platform_system_libhidl.Status.{is_ok}
use platform_system_libhidl.Status.Return
use platform_system_libhidl.Status.Return.{Return}
use platform_system_libhidl.Prelude.{
  Run, done, Bytes, eqb_bytes, Bool, true, false, not, Option, none, some, List, [], if◌then◌else◌,
  ◌∷◌, ◌>>=◌, ◌>>◌,
}

-- The loop of the callback over the chain of types.
unfoldable pub in_chain : Bytes → List Bytes → Bool
in_chain cast_to [] = false
in_chain cast_to (t ∷ ts) =
    let rest = in_chain cast_to ts in if eqb_bytes t cast_to then true else rest

-- I: interfaces, C: interfaces of the child type.
pub record CastOps (I C W : Type 0) : Type 0 where
  pub interface_chain : I → W → Option (List Bytes) × Return (Unit {0}) × W
  pub is_remote : I → Bool
  -- BpChild(toBinder<IParent>(parent)), and static_cast<IChild *>(parent)
  pub new_proxy : I → C
  pub static_cast : I → C

module _ {I C W : Type 0} (o : CastOps I C W) where
  unfoldable pub can_cast_interface :
      Option I → Bytes → (emit_error : Bool) → W → Run (Return Bool × W)
  unfolding in_chain Return.check Return.of_value Return.status_of Return.destroy
  can_cast_interface none cast_to emit_error w = done (Return.of_value false, w)
  can_cast_interface (some i) cast_to emit_error w =
      let (types, chain_ret, w') = o.interface_chain i w in
      let can_cast : Bool = elim types [ none ↦ false | some ts ↦ in_chain cast_to ts ] in
      let chain_ret' = Return.check chain_ret in
      do
        ret ←
            (if not (is_ok chain_ret.status)
              then (if emit_error
                  then Return.status_of false chain_ret'
                  else done (Return.of_value false))
              else done (Return.of_value can_cast))
        Return.destroy chain_ret'
        done (ret, w')

  -- castInterface, once canCastInterface has answered; the answer is destroyed at the end.
  unfoldable pub cast_answered : I → (emit_error : Bool) → Return Bool → Run (Return (Option C))
  unfolding Return.check Return.of_value Return.status_of Return.value Return.destroy
  cast_answered parent emit_error can_cast_ret =
      let checked = Return.check can_cast_ret in
      if not (is_ok can_cast_ret.status)
      then (do
        ret ← (if emit_error then Return.status_of none checked else done (Return.of_value none))
        Return.destroy checked
        done ret)
      else (do
        (can_cast, asked) ← Return.value checked
        Return.destroy asked
        done (
            Return.of_value (
              if not can_cast
              then none
              else if o.is_remote parent
              then some (o.new_proxy parent)
              else some (o.static_cast parent))))

  unfoldable pub cast_interface :
      Option I → Bytes → (emit_error : Bool) → W → Run (Return (Option C) × W)
  unfolding can_cast_interface cast_answered
  cast_interface none child_indicator emit_error w = done (Return.of_value none, w)
  cast_interface (some parent) child_indicator emit_error w = do
    (can_cast_ret, w') ← can_cast_interface (some parent) child_indicator emit_error w
    ret ← cast_answered parent emit_error can_cast_ret
    done (ret, w')
