-- ===== src/Tests/Parcels.antt =====
-- Parcels that are lists of what they hold, over a memory of zeros.
use platform_system_libhidl.Embedded.{
  BufferOps, EmbeddedString, EmbeddedMemory, EmbeddedQueue, add, read_string,
}
use platform_system_libhidl.Embedded.Strings.{read_string_lem}
use platform_system_libhidl.Embedded.Roundtrip.{Item, native_handle, bytes, Reliable}
use platform_system_libhidl.References.{ReferenceOps}
use platform_system_libhidl.References.Shared.{
  Region, contains, FindsBuffers, Answer, top, embedded, write_requests, write_requests_lem,
}
use platform_system_libhidl.Prelude.{
  ltb, leb, replicate, length-replicate, ℤ, pos, negsuc, done, Bytes, ℕ, suc, refl, ap, Bool, true,
  false, not, none, some, List, [], arith, if◌then◌else◌, ◌+◌, ◌≡◌, ◌&&◌, ◌||◌, ◌∷◌, ◌++◌,
}

abbrev zeros : ℕ → ℕ → Bytes
zeros buffer size = replicate size 0

abbrev take_handle : List Item → ℤ × List Item
take_handle [] = (negsuc 60, [])
take_handle (native_handle parent offset ∷ rest) = (pos 0, rest)
take_handle (bytes t parent offset ∷ rest) = (negsuc 21, [])

abbrev take_bytes : List Item → ℤ × Bytes × List Item
take_bytes [] = (negsuc 60, [], [])
take_bytes (native_handle parent offset ∷ rest) = (negsuc 21, [], [])
take_bytes (bytes t parent offset ∷ rest) = (pos 0, t, rest)

abbrev parcels : BufferOps (List Item)
parcels = record {
  ok = pos 0;
  bad_value = negsuc 21;
  read_nullable_embedded_native_handle = λ parent offset p. take_handle p;
  write_embedded_native_handle =
      λ handle parent offset p. (pos 0, p ++ native_handle parent offset ∷ []);
  read_embedded_buffer = λ size parent offset p. take_bytes p;
  read_nullable_embedded_buffer = λ size parent offset p. ((take_bytes p).0, 0, (take_bytes p).2);
  write_embedded_buffer =
      λ buffer size parent offset p. (pos 0, 0, p ++ bytes (zeros buffer size) parent offset ∷ []);
  quick_find_buffer = λ buffer p. (pos 0, 0);
}

parcels-Reliable : Reliable parcels zeros (λ p. p)
parcels-Reliable = record {
  writes_handle = λ handle parent offset p. (_, refl, refl);
  writes_buffer = λ buffer size parent offset p. (_, _, refl, refl);
  reads_handle = λ p parent offset rest h. (rest, ap take_handle h, refl);
  reads_buffer = λ p t size parent offset rest h l. (rest, ap take_bytes h, refl);
  reads_nullable_buffer = λ p t size parent offset rest h l.
      (0, rest, ap (λ q. ((take_bytes q).0, 0, (take_bytes q).2)) h, refl);
  memory_length = λ buffer size. length-replicate size 0;
}

abbrev name : EmbeddedString
name = record { buffer = 4096; size = 6 }

abbrev ashmem : EmbeddedMemory
ashmem = record { handle = 64; name = name }

abbrev queue : EmbeddedQueue
queue = record {
  grantors = record { buffer = 128; size = 3; element_size = 16 };
  handle = 64;
  offset_of_grantors = 0;
  offset_of_mq_handle = 16;
}

-- A parcel in which every buffer can be read and is full of the letter A.
abbrev letters : BufferOps ℕ
letters = record {
  ok = pos 0;
  bad_value = negsuc 21;
  read_nullable_embedded_native_handle = λ parent offset p. (pos 0, p);
  write_embedded_native_handle = λ handle parent offset p. (pos 0, p);
  read_embedded_buffer = λ size parent offset p. (pos 0, replicate size 65, suc p);
  read_nullable_embedded_buffer = λ size parent offset p. (pos 0, 0, p);
  write_embedded_buffer = λ buffer size parent offset p. (pos 0, 0, p);
  quick_find_buffer = λ buffer p. (pos 0, 0);
}

read_string_lem_example : read_string letters 64 name 1 16 3 ≡ done (negsuc 21, 4)
unfolding add
read_string_lem_example =
    read_string_lem letters 64 name 1 16 3 (omega arith)
      (λ size parent offset p h. length-replicate size 65)

abbrev huge : EmbeddedString
huge = record { buffer = 4096; size = 4294967295 }

abbrev points_into : Region → List Region → Bool
points_into b [] = false
points_into b (x ∷ xs) =
    (leb x.buffer b.buffer && ltb b.buffer (x.buffer + x.size)) || points_into b xs

-- A pointer into a buffer behind whose end the length goes.
abbrev overruns : Region → List Region → Bool
overruns b l = not (contains b l) && points_into b l

-- Parcels that list the buffers that they hold.
abbrev buffers : ReferenceOps (List Region)
buffers = record {
  ok = pos 0;
  read_embedded_reference = λ parent offset p. (pos 0, 0, true, p);
  read_reference = λ p. (pos 0, none, 0, true, p);
  write_embedded_null_reference = λ parent offset p. (pos 0, 0, p);
  write_null_reference = λ p. (pos 0, 0, p);
  find_buffer = λ b size p.
      if overruns (record { buffer = b; size = size }) p
      then (negsuc 21, false, 0, 0)
      else (pos 0, contains (record { buffer = b; size = size }) p, 0, 0);
  write_embedded_buffer =
      λ b size parent offset p. (pos 0, 0, p ++ record { buffer = b; size = size } ∷ []);
  write_buffer = λ b size p. (pos 0, 0, p ++ record { buffer = b; size = size } ∷ []);
  write_embedded_reference = λ child at parent offset p. (pos 0, 0, p);
  write_reference = λ child at p. (pos 0, 0, p);
}

buffers-FindsBuffers : FindsBuffers buffers overruns (λ p. p)
buffers-FindsBuffers = record {
  finds = λ b p well. (0, 0, rw well refl);
  refuses = λ b p refused. (negsuc 21, 0, 0, refl, rw refused refl);
  adds = λ b p. (refl, refl);
  adds_embedded = λ b parent offset p. (refl, refl);
  null_keeps = λ p. (refl, refl);
  embedded_null_keeps = λ parent offset p. (refl, refl);
  reference_keeps = λ child at p. (refl, refl);
  embedded_reference_keeps = λ child at parent offset p. (refl, refl);
}

abbrev region : ℕ → ℕ → Region
region buffer size = record { buffer = buffer; size = size }

abbrev answer : Bool → Bool → Answer
answer succeeds resolve = record { succeeds = succeeds; should_resolve = resolve }

write_requests_lem_example :
    ((write_requests buffers
      (top (some (region 96 16))
        ∷ embedded (some (region 64 8)) 1 0
        ∷ embedded (some (region 96 16)) 1 8
        ∷ top none
        ∷ top (some (region 104 32))
        ∷ [])
      []))
    ≡ (
      answer true true
          ∷ answer true true
          ∷ answer true false
          ∷ answer true false
          ∷ answer false true
          ∷ [],
      region 96 16 ∷ region 64 8 ∷ [],
    )
write_requests_lem_example =
    write_requests_lem buffers overruns (λ p. p) buffers-FindsBuffers
      (top (some (region 96 16))
        ∷ embedded (some (region 64 8)) 1 0
        ∷ embedded (some (region 96 16)) 1 8
        ∷ top none
        ∷ top (some (region 104 32))
        ∷ [])
      []
