-- ===== src/VirtualPath/Canonical.antt =====
-- Canonical paths, for `normalize_path` of crates/rasen-archive/src/path.rs.
use rasen_archive.Prelude.{ℕ, suc, ◌+◌, ◌<◌, ◌≤◌, max, ◌≡◌, refl, ap, ◌∙◌, List, [], ◌∷◌, ◌++◌}
use rasen_archive.Prelude.{true, false, length, All, arith, le→leb, lt→ltb}
use rasen_archive.Error.{ok}
use rasen_archive.Platform.{Platform}
use rasen_archive.VirtualPath.{
  Part, name, ignored, parent, classify, is_empty, contains_nul, starts_with_separator, split,
  push_part, normalize_parts, normalize_path, max_path_segments, max_path_len,
}
use rasen_archive.VirtualPath.Split.{
  has_separator, join_from, split-plain, split_plain, split-join_from, split-contains_nul,
  contains_nul-append,
}

-- A part that stays: not empty, no `.` or `..`, without separators and zero bytes.
pub record IsName (p : List ℕ) : Type 0 where
  pub kind : classify p ≡ name
  pub plain : has_separator p ≡ false
  pub no_nul : contains_nul p ≡ false

-- Names joined by single slashes, in the bounds on length and number.
pub record IsCanonical (path : List ℕ) : Type 0 where
  pub names : List (List ℕ)
  pub all_names : All IsName names
  pub joined : path ≡ join_from [] names
  pub some_name : 0 < length names
  pub few : length names ≤ max_path_segments
  pub short : length path ≤ max_path_len

-- The parts that the loop keeps.
abbrev keep : Part → List ℕ → List (List ℕ) → List (List ℕ)
keep name p rest = p ∷ rest
keep ignored p rest = rest
keep parent p rest = rest

names_of : List (List ℕ) → List (List ℕ)
names_of [] = []
names_of (p ∷ ps) = keep (classify p) p (names_of ps)

length-names_of : (ps : List (List ℕ)) → length (names_of ps) ≤ length ps
unfolding names_of
length-names_of [] = omega arith
length-names_of (p ∷ ps) = ground (arith, length-names_of ps)

keep-IsName :
    (k : Part) (p : List ℕ) (rest : List (List ℕ))
    → (k ≡ name → IsName p)
    → All IsName rest
    → All IsName (keep k p rest)
keep-IsName name p rest h v = (h refl, v)
keep-IsName ignored p rest h v = v
keep-IsName parent p rest h v = v

names_of-IsName :
    (ps : List (List ℕ))
    → All (λ p. has_separator p ≡ false) ps
    → All (λ p. contains_nul p ≡ false) ps
    → All IsName (names_of ps)
unfolding names_of
names_of-IsName [] plain no_nul = tt
names_of-IsName (p ∷ ps) plain no_nul =
    keep-IsName (classify p) p (names_of ps)
      (λ e. record { kind = e; plain = plain.0; no_nul = no_nul.0 })
      (names_of-IsName ps plain.1 no_nul.1)

-- The loop joins the names, and looks at 1024 parts at most.
normalize_parts_sound :
    (ps : List (List ℕ)) (index : ℕ) (acc n : List ℕ)
    → normalize_parts index acc ps ≡ ok n
    → (n ≡ join_from acc (names_of ps)) × (length ps + index ≤ max max_path_segments index)
unfolding normalize_parts names_of
normalize_parts_sound [] index acc n h = (cc, omega arith)
normalize_parts_sound (p ∷ ps) index acc n h = ground (
  arith,
  normalize_parts_sound ps (index + 1) (push_part acc p) n,
  normalize_parts_sound ps (index + 1) acc n,
)

normalize_parts_complete :
    (qs : List (List ℕ)) (index : ℕ) (acc : List ℕ)
    → All IsName qs
    → index + length qs ≤ max_path_segments
    → normalize_parts index acc qs ≡ ok (join_from acc qs)
unfolding normalize_parts
normalize_parts_complete [] index acc v fits = refl
normalize_parts_complete (q ∷ qs) index acc v fits = rw (
  lt→ltb index max_path_segments (omega arith),
  v.0.kind,
  normalize_parts_complete qs (index + 1) (push_part acc q) v.1 (omega arith),
)

join_from-is_empty :
    (acc : List ℕ) (qs : List (List ℕ)) → is_empty acc ≡ false → is_empty (join_from acc qs) ≡ false
join_from-is_empty acc [] h = h
join_from-is_empty [] (q ∷ qs) h = cc
join_from-is_empty (c ∷ acc) (q ∷ qs) h = join_from-is_empty (push_part (c ∷ acc) q) qs refl

join_from-contains_nul :
    (acc : List ℕ) (qs : List (List ℕ))
    → contains_nul acc ≡ false
    → All IsName qs
    → contains_nul (join_from acc qs) ≡ false
join_from-contains_nul acc [] h v = h
join_from-contains_nul acc (q ∷ qs) h v =
    join_from-contains_nul (push_part acc q) qs (pushed acc h) v.1
  where
    pushed : (acc : List ℕ) → contains_nul acc ≡ false → contains_nul (push_part acc q) ≡ false
    pushed [] h = v.0.no_nul
    pushed (c ∷ acc) h =
        rw (contains_nul-append (c ∷ acc) (47 ∷ q), h) (unfold contains_nul in v.0.no_nul)

-- A name does not begin with a separator, and neither does what begins with it.
starts_with_separator-join_from :
    (acc : List ℕ) (qs : List (List ℕ))
    → is_empty acc ≡ false
    → starts_with_separator acc ≡ false
    → starts_with_separator (join_from acc qs) ≡ false
starts_with_separator-join_from acc [] e h = h
starts_with_separator-join_from [] (q ∷ qs) e h = cc
starts_with_separator-join_from (c ∷ acc) (q ∷ qs) e h =
    starts_with_separator-join_from (push_part (c ∷ acc) q) qs refl h

IsName-is_empty : (q : List ℕ) → IsName q → is_empty q ≡ false
unfolding classify
IsName-is_empty [] v = cc (v.kind)
IsName-is_empty (c ∷ q) v = refl

IsName-starts : (q : List ℕ) → IsName q → starts_with_separator q ≡ false
IsName-starts [] v = refl
IsName-starts (c ∷ q) v = ground (arith, v.plain)

IsName-plain : (qs : List (List ℕ)) → All IsName qs → All (λ q. has_separator q ≡ false) qs
IsName-plain [] v = tt
IsName-plain (q ∷ qs) v = (v.0.plain, IsName-plain qs v.1)

split-join :
    (q : List ℕ) (qs : List (List ℕ)) → All IsName (q ∷ qs) → split (join_from q qs) ≡ q ∷ qs
split-join q qs v =
    split-join_from q qs (IsName-is_empty q v.0) (IsName-plain qs v.1)
    ∙ ap (λ t. t ++ qs) (split_plain q v.0.plain)

module _ (env : Platform) where
  normalize_parts_of :
      (path n : List ℕ)
      → normalize_path env path ≡ ok n
      → (contains_nul path ≡ false)
        × (normalize_parts 0 [] (split path) ≡ ok n)
        × (is_empty n ≡ false)
        × (length n ≤ max_path_len)
  unfolding normalize_path
  normalize_parts_of path n h = ground arith

  -- Whatever path `normalize_path` accepts, its result is canonical: names joined by single slashes, at
  -- least one and at most 1024 of them, in 65535 bytes, and none of them empty, `.` or `..` or with a
  -- separator or a zero byte in it.
  pub normalize_path-IsCanonical :
      (path n : List ℕ) → normalize_path env path ≡ ok n → IsCanonical n
  normalize_path-IsCanonical path n h =
      let (no_nul, loop, some_part, short) = normalize_parts_of path n h in
      let (joined, few) = normalize_parts_sound (split path) 0 [] n loop in
      record {
        names = names_of (split path);
        all_names =
            names_of-IsName (split path) (split-plain path) (split-contains_nul path no_nul);
        joined = joined;
        some_name = nonempty (names_of (split path)) (rw joined at some_part);
        few = omega (arith, few, length-names_of (split path));
        short = short;
      }
    where
      nonempty : (qs : List (List ℕ)) → is_empty (join_from [] qs) ≡ false → 0 < length qs
      nonempty [] e = cc
      nonempty (q ∷ qs) e = omega arith

  normalize_path_joined :
      (q : List ℕ) (qs : List (List ℕ))
      → All IsName (q ∷ qs)
      → suc (length qs) ≤ max_path_segments
      → length (join_from q qs) ≤ max_path_len
      → env.can_reserve (length (join_from q qs)) ≡ true
      → normalize_path env (join_from q qs) ≡ ok (join_from q qs)
  unfolding normalize_path
  normalize_path_joined q qs v few short room = rw (
    le→leb _ _ short,
    join_from-contains_nul q qs v.0.no_nul v.1,
    starts_with_separator-join_from q qs (IsName-is_empty q v.0) (IsName-starts q v.0),
    room,
    split-join q qs v,
    normalize_parts_complete (q ∷ qs) 0 [] v (omega arith),
    join_from-is_empty q qs (IsName-is_empty q v.0),
    le→leb _ _ short,
  )

  -- A canonical path is its own normal form, if memory for it can be had.
  pub normalize_path_canonical :
      (path : List ℕ)
      → IsCanonical path
      → env.can_reserve (length path) ≡ true
      → normalize_path env path ≡ ok path
  normalize_path_canonical path v room = joined_names v.names v.all_names v.few v.some_name v.joined
    where
      joined_names :
          (qs : List (List ℕ))
          → All IsName qs
          → length qs ≤ max_path_segments
          → 0 < length qs
          → path ≡ join_from [] qs
          → normalize_path env path ≡ ok path
      joined_names [] all few some_name e = absurd (omega arith)
      joined_names (q ∷ qs) all few some_name e =
          rw e (normalize_path_joined q qs all few (rw e at v.short) (rw e at room))

  -- A result of `normalize_path`, normalized again, is itself, if memory for it can be had.
  pub normalize_path_idem :
      (path n : List ℕ)
      → normalize_path env path ≡ ok n
      → env.can_reserve (length n) ≡ true
      → normalize_path env n ≡ ok n
  normalize_path_idem path n h room =
      normalize_path_canonical n (normalize_path-IsCanonical path n h) room
