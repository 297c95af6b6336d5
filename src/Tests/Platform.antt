-- ===== src/Tests/Platform.antt =====
-- Process names, the wait for a service, shared memory and parcels.
use platform_system_libhidl.Services.{
  Wake, registration, notification, a_second, no_reason, came, accepted, wait_for_hw_service,
}
use platform_system_libhidl.Services.Wait.{wait_for_hw_service_lem}
use platform_system_libhidl.Allocator.{HidlMemory, allocate, batch_allocate}
use platform_system_libhidl.Allocator.Regions.{batch_allocate-keeps}
use platform_system_libhidl.Status.{Status}
use platform_system_libhidl.Version.{HidlVersion, make_hidl_version, IsVersion}
use platform_system_libhidl.Parcelling.{ParcelOps, Conversions, read_status, write_status}
use platform_system_libhidl.Parcelling.Roundtrip.{
  Item, int32, uint32, string16, Reliable, read_status-write_status,
}
use platform_system_libhidl.Tests.Codes.{linux_codes}
use platform_system_libhidl.Tests.Descriptors.{Table, is_open, dup, close, dup-fresh, is_open-close}
use platform_system_libhidl.Prelude.{
  ℤ, pos, negsuc, ltb_ℤ, eqb_ℤ, Bytes, codes, ℕ, refl, Bool, true, false, List, [], arith,
  if◌then◌else◌, ◌≡◌, ◌∷◌, ◌++◌,
}

abbrev android : Bytes
android = codes "android.hardware.module"

abbrev foo : Bytes
foo = codes "foo@1"

abbrev service : Bytes
service = codes "-service"

abbrev wakes : List Wake
wakes = a_second ∷ no_reason ∷ registration ∷ registration ∷ notification ∷ a_second ∷ []

wait_for_hw_service_lem_example :
    wait_for_hw_service true accepted true [] wakes ≡ came true (a_second ∷ [])
wait_for_hw_service_lem_example = wait_for_hw_service_lem true [] wakes

abbrev create_region : ℕ → Table → ℤ × Table
create_region size w = dup (pos 0) w

create_region_opens :
    (size : ℕ) (w : Table) (x : ℤ)
    → is_open (create_region size w).1 x ≡ (
        if ltb_ℤ (create_region size w).0 (pos 0)
        then is_open w x
        else if eqb_ℤ x (create_region size w).0
        then true
        else is_open w x)
create_region_opens size w (pos n) = ground arith
create_region_opens size w (negsuc n) = ground arith

abbrev ignore : Bool → List HidlMemory → Table → Table
ignore success batch w = w

abbrev process : Table
process = record { next = 3; gone = λ x. false }

batch_allocate-keeps_example :
    (is_open (allocate create_region close ignore 4096 process) (pos 3) ≡ is_open process (pos 3))
    × (is_open (batch_allocate create_region close ignore 4096 2 process) (pos 3)
        ≡ is_open process (pos 3))
batch_allocate-keeps_example =
    batch_allocate-keeps create_region close ignore is_open (λ size w. dup-fresh (pos 0) w)
      create_region_opens is_open-close (λ success batch w x. refl) 4096 2 process (pos 3)

abbrev list_parcel : ParcelOps (List Item)
list_parcel = record {
  write_int32 = λ v p. (pos 0, p ++ int32 v ∷ []);
  read_int32 = λ p. elim p [
    | [] ↦ (negsuc 60, pos 0, [])
    | int32 v ∷ rest ↦ (pos 0, v, rest)
    | uint32 _ ∷ rest ↦ (negsuc 60, pos 0, rest)
    | string16 _ ∷ rest ↦ (negsuc 60, pos 0, rest)
  ];
  write_string16 = λ t p. (pos 0, p ++ string16 t ∷ []);
  read_string16 = λ p. elim p [
    | [] ↦ (negsuc 60, [], [])
    | int32 _ ∷ rest ↦ (negsuc 60, [], rest)
    | uint32 _ ∷ rest ↦ (negsuc 60, [], rest)
    | string16 t ∷ rest ↦ (pos 0, t, rest)
  ];
  write_uint32 = λ n p. (pos 0, p ++ uint32 n ∷ []);
  read_uint32 = λ p. elim p [
    | [] ↦ (negsuc 60, 0, [])
    | int32 _ ∷ rest ↦ (negsuc 60, 0, rest)
    | uint32 n ∷ rest ↦ (pos 0, n, rest)
    | string16 _ ∷ rest ↦ (negsuc 60, 0, rest)
  ];
  data_position = λ p. pos 0;
  advance = λ from by p. p;
}

list_parcel-Reliable : Reliable linux_codes list_parcel (λ p. p)
list_parcel-Reliable = record {
  ok_write_int32 = λ v p. refl;
  unread_write_int32 = λ v p. refl;
  ok_write_string16 = λ t p. refl;
  unread_write_string16 = λ t p. refl;
  ok_write_uint32 = λ n p. refl;
  unread_write_uint32 = λ n p. refl;
  reads_int32 = λ p v rest e. (rest, rw e refl, refl);
  reads_string16 = λ p t rest e. (rest, rw e refl, refl);
  reads_uint32 = λ p n rest e. (rest, rw e refl, refl);
}

-- Of ASCII texts each byte is a unit.
abbrev ascii : Conversions
ascii = record { string16 = λ t. t; string8 = λ t. t }

abbrev failure : Status
failure = record { exception = negsuc 2; error_code = pos 0; message = codes "no" }

read_status-write_status_example :
    (p' : List Item) × ((write_status linux_codes list_parcel ascii failure []).0 ≡ pos 0)
    × (read_status linux_codes list_parcel ascii failure
          (write_status linux_codes list_parcel ascii failure []).1
        ≡ (failure, pos 0, p'))
    × (p' ≡ [])
read_status-write_status_example =
    read_status-write_status linux_codes list_parcel (λ p. p) list_parcel-Reliable ascii failure
      failure [] refl refl refl refl

abbrev v1_2 : HidlVersion
v1_2 = make_hidl_version 1 2

v1_2-IsVersion : IsVersion v1_2
v1_2-IsVersion = record { major_range = omega arith; minor_range = omega arith }
