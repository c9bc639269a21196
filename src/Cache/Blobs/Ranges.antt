-- ===== src/Cache/Blobs/Ranges.antt =====
-- The positions of a file that a client's range asks for: `range_of`, and the bytes between them.
use pulld.Base.{
  ℕ, suc, ◌+◌, ◌-◌, ◌≤◌, ◌<◌, ◌≡◌, refl, Option, none, some, arith, length, take, drop, inl, inr,
  length-take, length-drop, ◌⊎◌,
}
use native.Mathlib.Decide.{dec_lt}
use pulld.Cache.Disk.{Bytes}
use pulld.Cache.Blobs.{BlobByteRange, range_of}

-- The bytes from position `first` to position `last`.
abbrev pub slice : ℕ → ℕ → Bytes → Bytes
slice first last content = take (last + 1 - first) (drop first content)

pub range_of-within :
    (size : ℕ) (r : BlobByteRange) (p : ℕ × ℕ)
    → range_of size r ≡ some p
    → (p.0 ≤ p.1) × (p.1 < size)
unfolding range_of
range_of-within size r p h = ground arith

pub length-slice :
    (first last : ℕ) (content : Bytes)
    → first ≤ last
    → last < length content
    → length (slice first last content) ≡ last + 1 - first
length-slice first last content h f =
    omega (
      arith,
      length-take {0} (last + 1 - first) (drop first content),
      length-drop {0} first content,
    )

-- The last position that a range with this end asks for: its end, or the last of all where there is no
-- end or it lies behind that.
abbrev pub IsEnd : ℕ → Option ℕ → ℕ → Type 0
IsEnd size none last = suc last ≡ size
IsEnd size (some end) last = ((last ≡ end) × (end < size)) ⊎ ((suc last ≡ size) × (size ≤ end))

pub range_of-IsEnd :
    (size : ℕ) (r : BlobByteRange) (p : ℕ × ℕ)
    → range_of size r ≡ some p
    → (p.0 ≡ r.start) × IsEnd size r.end p.1
unfolding range_of
range_of-IsEnd size r p h = (ground arith, of_end r.end refl)
  where
    of_end : (end : Option ℕ) → r.end ≡ end → IsEnd size end p.1
    of_end none e = let k = rw e at h in ground arith
    of_end (some end) e =
        let k = rw e at h in
        elim (dec_lt end size) [
          | yes inside ↦ inl (ground arith, inside)
          | no behind ↦ inr (ground arith, omega arith)
        ]
