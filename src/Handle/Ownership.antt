-- ===== src/Handle/Ownership.antt =====
-- Who closes the descriptors of a handle.
use platform_system_libhidl.MqDescriptor.{NativeHandle}
use platform_system_libhidl.Handle.{HidlHandle, destroy, copy_assign, move_assign}
use platform_system_libhidl.Prelude.{
  Option-cases, done, fatal, refl, inl, inr, Option, none, some, ◌>>=◌, ◌≡◌,
}

module _ {W : Type 0} (clone : NativeHandle → W → Option NativeHandle × W)
    (close : NativeHandle → W → W) where
  -- A move assignment and the ends of both objects close the same handles in the same order as the
  -- ends of both objects without the move. The moved object looks at no handle.
  pub destroy-move_assign :
      (this other : HidlHandle) (w : W)
      → (destroy clone close (move_assign clone close this other w).1 (
            destroy clone close
              (move_assign clone close this other w).0
              (move_assign clone close this other w).2)
          ≡ destroy clone close other (destroy clone close this w))
        × ((move_assign clone close this other w).1.handle ≡ none)
  unfolding destroy move_assign
  destroy-move_assign this other w = (refl, refl)

  -- The end of a copied handle closes the clone, whatever `other` owned, and nothing else; where
  -- the clone fails the copy aborts, and a null handle is copied as it is.
  pub destroy-copy_assign :
      (this other : HidlHandle) (w : W)
      → (copy_assign clone close this other w >>= λ r. done (destroy clone close r.0 r.1))
        ≡ elim other.handle [
          | none ↦ done (destroy clone close this w)
          | some h ↦ elim (clone h (destroy clone close this w)).0 [
            | none ↦ fatal
            | some c ↦ done (close c (clone h (destroy clone close this w)).1)
          ]
        ]
  unfolding destroy copy_assign
  destroy-copy_assign this other w = elim (Option-cases other.handle) [
    | inl e ↦ rw (copy_assign, e) refl
    | inr (h, e) ↦ elim (Option-cases (clone h (destroy clone close this w)).0) [
      | inl e' ↦ rw (copy_assign, e, e') refl
      | inr (k, e') ↦ rw (copy_assign, e, e') refl
    ]
  ]
