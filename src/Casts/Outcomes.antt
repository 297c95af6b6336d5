-- ===== src/Casts/Outcomes.antt =====
-- What a cast returns.
use platform_system_libhidl.Status.{is_ok}
use platform_system_libhidl.Status.Return
use platform_system_libhidl.Status.Return.{Return}
use platform_system_libhidl.Casts.{CastOps, in_chain, cast_interface}
use platform_system_libhidl.Prelude.{
  done, Bytes, Bool, false, Option, none, some, List, arith, if◌then◌else◌, ◌≡◌,
}

module _ {I C W : Type 0} (o : CastOps I C W) where
  -- Whether the callback saw the type.
  abbrev pub listed : Option (List Bytes) → Bytes → Bool
  listed none t = false
  listed (some ts) t = in_chain t ts

  abbrev pub child_of : I → C
  child_of i = if o.is_remote i then o.new_proxy i else o.static_cast i

  -- A cast never aborts. If the call of interfaceChain fails, the result is its status where errors
  -- are emitted, and null where they are not; if it succeeds, the result is the child, as a proxy
  -- for a remote parent, exactly if the chain lists the type, and null otherwise.
  pub cast_interface_lem :
      (parent : I) (child : Bytes) (emit_error : Bool) (w : W)
      → cast_interface o (some parent) child emit_error w
        ≡ done (
          if is_ok (o.interface_chain parent w).1.status
              then Return.of_value (
                  if listed (o.interface_chain parent w).0 child
                  then some (child_of parent)
                  else none)
              else if emit_error
              then Return.of_status none (o.interface_chain parent w).1.status
              else Return.of_value none,
          (o.interface_chain parent w).2,
        )
  unfolding cast_interface
  cast_interface_lem parent child emit_error w = ground arith
