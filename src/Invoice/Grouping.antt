-- ===== src/Invoice/Grouping.antt =====
-- packages/facturx/src/generate/compute.ts: the insertion-ordered grouping of lines by VAT category
-- and rate.
use mathlib.Core.List.{append_assoc, append-nil}
use validateur_facturx.Common.{
  ◌≡◌, refl, ◌∙◌, sym, arith, false, Bool-cases, inl, inr, List, [], ◌∷◌, ◌++◌, if◌then◌else◌, keep,
  All,
}
use validateur_facturx.Common.Text.{Text, text_eq, text_eq_iff}
use validateur_facturx.Invoice.Compute.{ComputedLine, Group, key_of, insert_line, group_lines}

-- The lines of the invoice that a key stands for, in their order.
abbrev pub lines_with : Text → List ComputedLine → List ComputedLine
lines_with key = keep (λ line. text_eq key (key_of line))

-- The lines that the group under a key holds; none where there is no such group.
abbrev pub members : Text → List Group → List ComputedLine
members key [] = []
members key (g ∷ gs) = if text_eq key g.key then g.lines else members key gs

members-insert_line :
    (key : Text) (line : ComputedLine) (gs : List Group)
    → members key (insert_line line gs)
      ≡ (if text_eq key (key_of line) then members key gs ++ line ∷ [] else members key gs)
unfolding insert_line
members-insert_line key line [] = ground arith
members-insert_line key line (g ∷ gs) = ground (
  arith,
  text_eq_iff g.key (key_of line),
  text_eq_iff key g.key,
  text_eq_iff key (key_of line),
  members-insert_line key line gs,
)

members-group_lines :
    (key : Text) (gs : List Group) (lines : List ComputedLine)
    → members key (group_lines gs lines) ≡ members key gs ++ lines_with key lines
unfolding group_lines
members-group_lines key gs [] = sym (append-nil _)
members-group_lines key gs (line ∷ lines) = elim (Bool-cases (text_eq key (key_of line))) [
  | inl same ↦
      members-group_lines key (insert_line line gs) lines
      ∙ rw (members-insert_line key line gs, same, append_assoc) refl
  | inr other ↦
      members-group_lines key (insert_line line gs) lines
      ∙ rw (members-insert_line key line gs, other) refl
]

-- A group under its own key, led by its first line.
abbrev Led : Group → Type 0
Led g = (g.key ≡ key_of g.line) × ((rest : List ComputedLine) × (g.lines ≡ g.line ∷ rest))

insert_line-Led :
    (line : ComputedLine) (gs : List Group) → All Led gs → All Led (insert_line line gs)
unfolding insert_line
insert_line-Led line [] h = ((refl, ([], refl)), tt)
insert_line-Led line (g ∷ gs) ((k, (rest, e)), h) =
    elim (Bool-cases (text_eq g.key (key_of line))) [
      | inl same ↦ rw same ((k, (rest ++ line ∷ [], rw e refl)), h)
      | inr other ↦ rw other ((k, (rest, e)), insert_line-Led line gs h)
    ]

-- No group has the key.
abbrev Absent : Text → List Group → Type 0
Absent key = All (λ g. text_eq g.key key ≡ false)

abbrev pub DistinctKeys : List Group → Type 0
DistinctKeys [] = Unit
DistinctKeys (g ∷ gs) = Absent g.key gs × DistinctKeys gs

insert_line-Absent :
    (key : Text) (line : ComputedLine) (gs : List Group)
    → text_eq (key_of line) key ≡ false
    → Absent key gs
    → Absent key (insert_line line gs)
unfolding insert_line
insert_line-Absent key line [] ne h = (ne, tt)
insert_line-Absent key line (g ∷ gs) ne (p, h) = elim (Bool-cases (text_eq g.key (key_of line))) [
  | inl same ↦ rw same (p, h)
  | inr other ↦ rw other (p, insert_line-Absent key line gs ne h)
]

text_eq_swap : (s t : Text) → text_eq s t ≡ false → text_eq t s ≡ false
text_eq_swap s t h = ground (arith, text_eq_iff s t, text_eq_iff t s)

insert_line-DistinctKeys :
    (line : ComputedLine) (gs : List Group) → DistinctKeys gs → DistinctKeys (insert_line line gs)
unfolding insert_line
insert_line-DistinctKeys line [] h = (tt, tt)
insert_line-DistinctKeys line (g ∷ gs) (a, h) = elim (Bool-cases (text_eq g.key (key_of line))) [
  | inl same ↦ rw same (a, h)
  | inr other ↦ rw other (
    insert_line-Absent g.key line gs (text_eq_swap g.key (key_of line) other) a,
    insert_line-DistinctKeys line gs h,
  )
]

-- What the grouping of some lines is: each group holds the lines with its key, all of them and in
-- order, its first line gives the key, and no two groups share one.
pub record IsGrouping (lines : List ComputedLine) (gs : List Group) : Type 0 where
  pub complete : (key : Text) → members key gs ≡ lines_with key lines
  pub led : All Led gs
  pub distinct : DistinctKeys gs

group_lines-Led :
    (gs : List Group) (lines : List ComputedLine) → All Led gs → All Led (group_lines gs lines)
unfolding group_lines
group_lines-Led gs [] h = h
group_lines-Led gs (line ∷ lines) h =
    group_lines-Led (insert_line line gs) lines (insert_line-Led line gs h)

group_lines-DistinctKeys :
    (gs : List Group) (lines : List ComputedLine)
    → DistinctKeys gs
    → DistinctKeys (group_lines gs lines)
unfolding group_lines
group_lines-DistinctKeys gs [] h = h
group_lines-DistinctKeys gs (line ∷ lines) h =
    group_lines-DistinctKeys (insert_line line gs) lines (insert_line-DistinctKeys line gs h)

-- The VAT groups partition the lines by key: for every key the group holds exactly the lines with
-- that key in their order, each group is led by a line with its key, and keys are distinct.
pub group_lines-IsGrouping : (lines : List ComputedLine) → IsGrouping lines (group_lines [] lines)
group_lines-IsGrouping lines = record {
  complete = λ key. members-group_lines key [] lines;
  led = group_lines-Led [] lines tt;
  distinct = group_lines-DistinctKeys [] lines tt;
}
