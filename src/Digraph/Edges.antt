-- ===== src/Digraph/Edges.antt =====
-- The edges of a digraph, which it keeps twice: by where they end and by where they begin.
use cogutil.Base.{
  ℕ, ◌<◌, Bool, true, false, ◌&&◌, ◌||◌, not, List, [], ◌∷◌, Option, none, some, if◌then◌else◌,
  ◌==◌, ◌≡◌, refl, ◌∙◌, ap, subst, arith, Bool-cases, inl, inr, ==_iff, All, lt→ltb,
}
use cogutil.Base.Order.{nat_less}
use cogutil.Sorted
use cogutil.Sorted.{member, IsSorted, same}
use cogutil.Sorted.Laws.{member-insert, member-erase, insert-IsSorted, erase-IsSorted}
use cogutil.Digraph.{Digraph, create, update, inserted, erased, insert, erase}

abbrev pub edge : Digraph → ℕ → ℕ → Bool
edge g a b = member nat_less a (g.incoming_sets b)

pub record IsMirrored (g : Digraph) : Type 0 where
  pub mirrors : (a b : ℕ) → member nat_less b (g.outgoing_sets a) ≡ edge g a b
  pub ranges : (a b : ℕ) → edge g a b ≡ true → (a < g.size) × (b < g.size)
  pub incoming_sorted : (b : ℕ) → IsSorted nat_less (g.incoming_sets b)
  pub outgoing_sorted : (a : ℕ) → IsSorted nat_less (g.outgoing_sets a)

pub same-eq : (a b : ℕ) → same nat_less a b ≡ (a == b)
same-eq a b = ground arith

update-IsSorted :
    (i : ℕ) (xs : List ℕ) (sets : ℕ → List ℕ)
    → IsSorted nat_less xs
    → ((x : ℕ) → IsSorted nat_less (sets x))
    → (x : ℕ) → IsSorted nat_less (update i xs sets x)
update-IsSorted i xs sets s all x = elim (Bool-cases (x == i)) [
  | inl here ↦ subst (IsSorted nat_less) (rw here refl) s
  | inr there ↦ subst (IsSorted nat_less) (rw there refl) (all x)
]

member-update :
    (a i x : ℕ) (xs : List ℕ) (sets : ℕ → List ℕ)
    → member nat_less a (update i xs sets x)
      ≡ (if x == i then member nat_less a xs else member nat_less a (sets x))
member-update a i x xs sets = elim (Bool-cases (x == i)) [
  | inl here ↦ rw here refl
  | inr there ↦ rw there refl
]

-- The set at `x` after `i` is inserted at `j`, and after it is erased there.
module _ (a i j x : ℕ) (sets : ℕ → List ℕ) where
  member-update-insert :
      member nat_less a (update j (Sorted.insert nat_less i (sets j)) sets x)
      ≡ (((a == i) && (x == j)) || member nat_less a (sets x))
  member-update-insert = elim (Bool-cases (x == j)) [
    | inl here ↦
        let same_set = ap (λ y. member nat_less a (sets y)) ((==_iff x j).0 here) in
        rw (here, member-insert nat_less a i (sets j), same-eq a i, same_set) (ground arith)
    | inr there ↦ rw there (ground arith)
  ]

  member-update-erase :
      IsSorted nat_less (sets j)
      → member nat_less a (update j (Sorted.erase nat_less i (sets j)) sets x)
        ≡ (not ((a == i) && (x == j)) && member nat_less a (sets x))
  member-update-erase s = elim (Bool-cases (x == j)) [
    | inl here ↦
        let same_set = ap (λ y. member nat_less a (sets y)) ((==_iff x j).0 here) in
        rw (here, member-erase nat_less a i (sets j) s, same-eq a i, same_set) (ground arith)
    | inr there ↦ rw there (ground arith)
  ]

pub create-IsMirrored : (n : ℕ) → IsMirrored (create n)
unfolding create member
create-IsMirrored n = record {
  mirrors = λ a b. refl;
  ranges = λ a b e. ground arith;
  incoming_sorted = λ b. tt;
  outgoing_sorted = λ a. tt;
}

module _ (src dst : ℕ) (g : Digraph) (v : IsMirrored g) where
  pub edge-inserted :
      (a b : ℕ) → edge (inserted src dst g) a b ≡ (((a == src) && (b == dst)) || edge g a b)
  edge-inserted a b = member-update-insert a src dst b g.incoming_sets

  pub edge-erased :
      (a b : ℕ) → edge (erased src dst g) a b ≡ (not ((a == src) && (b == dst)) && edge g a b)
  edge-erased a b = member-update-erase a src dst b g.incoming_sets (v.incoming_sorted dst)

  pub inserted-IsMirrored : src < g.size → dst < g.size → IsMirrored (inserted src dst g)
  inserted-IsMirrored p q = record {
    mirrors = λ a b.
        rw (member-update-insert b dst src a g.outgoing_sets, edge-inserted a b, v.mirrors a b)
          (ground arith);
    ranges = λ a b e. ground (arith, edge-inserted a b, v.ranges a b);
    incoming_sorted =
        update-IsSorted dst (Sorted.insert nat_less src (g.incoming_sets dst)) g.incoming_sets
          (insert-IsSorted nat_less src (g.incoming_sets dst) (v.incoming_sorted dst))
          v.incoming_sorted;
    outgoing_sorted =
        update-IsSorted src (Sorted.insert nat_less dst (g.outgoing_sets src)) g.outgoing_sets
          (insert-IsSorted nat_less dst (g.outgoing_sets src) (v.outgoing_sorted src))
          v.outgoing_sorted;
  }

  pub erased-IsMirrored : IsMirrored (erased src dst g)
  erased-IsMirrored = record {
    mirrors = λ a b.
        rw
          (
            member-update-erase b dst src a g.outgoing_sets (v.outgoing_sorted src),
            edge-erased a b,
            v.mirrors a b,
          )
          (ground arith);
    ranges = λ a b e. ground (arith, edge-erased a b, v.ranges a b);
    incoming_sorted =
        update-IsSorted dst (Sorted.erase nat_less src (g.incoming_sets dst)) g.incoming_sets
          (erase-IsSorted nat_less src (g.incoming_sets dst) (v.incoming_sorted dst))
          v.incoming_sorted;
    outgoing_sorted =
        update-IsSorted src (Sorted.erase nat_less dst (g.outgoing_sets src)) g.outgoing_sets
          (erase-IsSorted nat_less dst (g.outgoing_sets src) (v.outgoing_sorted src))
          v.outgoing_sorted;
  }

-- A call of `insert` or `erase`.
pub data Edit : Type 0 where
  inserts erases : ℕ → ℕ → Edit

abbrev pub edit : Edit → Digraph → Option Digraph
edit (Edit.inserts src dst) g = insert src dst g
edit (Edit.erases src dst) g = erase src dst g

abbrev pub FitsIn : ℕ → Edit → Type 0
FitsIn n (Edit.inserts src dst) = (src < n) × (dst < n)
FitsIn n (Edit.erases src dst) = (src < n) × (dst < n)

unfoldable pub edits : List Edit → Digraph → Option Digraph
edits [] g = some g
edits (e ∷ es) g = elim (edit e g) [ none ↦ none | some g' ↦ edits es g' ]

-- Whether the edge is there after the calls, if it was there before as `now` tells.
abbrev pub present : List Edit → ℕ → ℕ → Bool → Bool
present [] a b now = now
present (Edit.inserts src dst ∷ es) a b now = present es a b (((a == src) && (b == dst)) || now)
present (Edit.erases src dst ∷ es) a b now = present es a b (not ((a == src) && (b == dst)) && now)

-- The graph that calls leave.
abbrev Left : List Edit → Digraph → Type 0
Left es g =
    (g' : Digraph) × (edits es g ≡ some g')
    × IsMirrored g'
    × ((a b : ℕ) → edge g' a b ≡ present es a b (edge g a b))

present_of :
    (es : List Edit) (a b : ℕ) {now then' : Bool}
    → now ≡ then'
    → present es a b now ≡ present es a b then'
present_of es a b e = ap (present es a b) e

pub insert_within :
    (src dst : ℕ) (g : Digraph)
    → src < g.size
    → dst < g.size
    → insert src dst g ≡ some (inserted src dst g)
unfolding insert
insert_within src dst g p q = rw (lt→ltb dst g.size q, lt→ltb src g.size p) refl

pub erase_within :
    (src dst : ℕ) (g : Digraph)
    → src < g.size
    → dst < g.size
    → erase src dst g ≡ some (erased src dst g)
unfolding erase
erase_within src dst g p q = rw (lt→ltb dst g.size q, lt→ltb src g.size p) refl

edits_next :
    (e : Edit) (es : List Edit) (g g' : Digraph)
    → edit e g ≡ some g'
    → edits (e ∷ es) g ≡ edits es g'
unfolding edits
edits_next e es g g' h = rw (edits, h) refl

edits-Left : (es : List Edit) (g : Digraph) → All (FitsIn g.size) es → IsMirrored g → Left es g
unfolding edits
edits-Left [] g fits v = (g, refl, v, λ a b. refl)
edits-Left (Edit.inserts src dst ∷ es) g fits v =
    let (g', ran, v', edges) =
      edits-Left es (inserted src dst g) fits.1
        (inserted-IsMirrored src dst g v fits.0.0 fits.0.1) in
    (
      g',
      edits_next (Edit.inserts src dst) es g (inserted src dst g)
            (insert_within src dst g fits.0.0 fits.0.1)
          ∙ ran,
      v',
      λ a b. edges a b ∙ present_of es a b (edge-inserted src dst g v a b),
    )
edits-Left (Edit.erases src dst ∷ es) g fits v =
    let (g', ran, v', edges) =
      edits-Left es (erased src dst g) fits.1 (erased-IsMirrored src dst g v) in
    (
      g',
      edits_next (Edit.erases src dst) es g (erased src dst g)
            (erase_within src dst g fits.0.0 fits.0.1)
          ∙ ran,
      v',
      λ a b. edges a b ∙ present_of es a b (edge-erased src dst g v a b),
    )

-- Any calls of `insert` and `erase` between nodes of a new digraph succeed; afterwards its two
-- vectors tell the same edges, each one there as the last call about it says.
pub edits_lem :
    (n : ℕ) (es : List Edit)
    → All (FitsIn n) es
    → (g : Digraph) × (edits es (create n) ≡ some g)
      × ((a b : ℕ)
          → (member nat_less a (g.incoming_sets b) ≡ present es a b false)
            × (member nat_less b (g.outgoing_sets a) ≡ present es a b false))
unfolding create member
edits_lem n es fits =
    let (g, ran, v, edges) = edits-Left es (create n) fits (create-IsMirrored n) in
    (g, ran, λ a b. (edges a b, v.mirrors a b ∙ edges a b))
