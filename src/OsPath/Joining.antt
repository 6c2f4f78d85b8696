-- ===== src/OsPath/Joining.antt =====
-- `join` of path_uc386dos.c, for absolute and relative parts.
use freedos_micro_python.Prelude.{
  ◌-◌, ◌<◌, ◌≡◌, refl, ◌∙◌, true, false, not, ◌&&◌, List, [], ◌∷◌, ◌++◌, append-nil, append_assoc,
  arith, Bytes, get_or, length, ltb, All, if◌then◌else◌,
}
use freedos_micro_python.OsPath.{is_sep, backslash, is_absolute, join_part, join_loop, join}

join_loop-append :
    (buf : Bytes) (ps qs : List Bytes) → join_loop buf (ps ++ qs) ≡ join_loop (join_loop buf ps) qs
unfolding join_loop
join_loop-append buf [] qs = refl
join_loop-append buf (p ∷ ps) qs = join_loop-append (join_part buf p) ps qs

part-absolute : (buf a : Bytes) → is_absolute a ≡ true → join_part buf a ≡ a
unfolding join_part is_absolute
part-absolute buf a h = ground arith

-- What stands before an absolute part does not show in the result.
pub join-absolute :
    (ps qs : List Bytes) (a : Bytes) → is_absolute a ≡ true → join (ps ++ a ∷ qs) ≡ join (a ∷ qs)
unfolding join join_loop
join-absolute ps qs a h =
    rw (join_loop-append [] ps (a ∷ qs))
      (unfold join_loop in rw (part-absolute (join_loop [] ps) a h, part-absolute [] a h))

-- A separator, unless the buffer is empty or ends with one.
pub gap : Bytes → Bytes
gap buf =
    if ltb 0 (length buf) && not (is_sep (get_or buf (length buf - 1) 0))
    then backslash ∷ []
    else []

part-relative :
    (buf p : Bytes) → is_absolute p ≡ false → 0 < length p → join_part buf p ≡ buf ++ (gap buf ++ p)
unfolding join_part gap
part-relative buf p h n = ground arith

-- What a row of relative parts adds to the buffer: each behind a separator, where there is none.
pub adds : Bytes → List Bytes → Bytes
adds buf [] = []
adds buf (p ∷ ps) = gap buf ++ (p ++ adds (buf ++ (gap buf ++ p)) ps)

-- Relative parts that are not empty are all kept whole and in order, behind what was there, and only
-- separators come between them.
pub join-relative :
    (first : Bytes) (ps : List Bytes)
    → All (λ p. (is_absolute p ≡ false) × (0 < length p)) ps
    → join_loop first ps ≡ first ++ adds first ps
unfolding join_loop adds
join-relative first [] h = rw append-nil
join-relative first (p ∷ ps) ((hr, hn), hs) =
    rw (part-relative first p hr hn)
      (join-relative (first ++ (gap first ++ p)) ps hs ∙ simp append_assoc)
