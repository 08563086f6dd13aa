-- ===== src/Partition/Links.antt =====
-- mxf_update_partitions_in_memory: the offsets that link the partitions of a file.
use ebu_libmxf.Base.{
  ℕ, zero, suc, ◌-◌, ◌≡◌, refl, sym, ap, ap₂, ◌∙◌, Bool, true, false, if◌then◌else◌, ◌++◌,
  length-append, Option, none, some, List, [], ◌∷◌, length, get_elem?, ◌==◌, arith,
}
use ebu_libmxf.MxfList.Defs.{get_list_length, get_last_list_element}
use ebu_libmxf.MxfList.Refine.{of_list, last-of_list}
use ebu_libmxf.Partition.Defs.{Partition, is_footer_partition_pack}
use ebu_libmxf.Partition.Pack.{
  with_previous, with_footer, link, footer_of, update_partitions_in_memory,
}

-- The offset of the partition in front of place `i`, if there is one; `first` is in front of all.
abbrev pub offset_before : Option ℕ → List Partition → ℕ → Option ℕ
offset_before first ps zero = first
offset_before first [] (suc i) = none
offset_before first (p ∷ ps) (suc i) = offset_before (some p.this_partition) ps i

-- What becomes of a partition with the offsets of the footer and of the partition before.
abbrev pub linked : Option ℕ → Option ℕ → Partition → Partition
linked footer previous p = with_footer footer (with_previous previous p)

abbrev pub linked_at : Option ℕ → Option ℕ → Option Partition → Option Partition
linked_at footer previous none = none
linked_at footer previous (some p) = some (linked footer previous p)

link-get :
    (footer previous : Option ℕ) (ps : List Partition) (i : ℕ)
    → get_elem? (link footer previous ps) i
      ≡ linked_at footer (offset_before previous ps i) (get_elem? ps i)
unfolding link
link-get footer previous [] i = refl
link-get footer previous (p ∷ ps) zero = refl
link-get footer previous (p ∷ ps) (suc i) = link-get footer (some p.this_partition) ps i

linked-twice :
    (footer previous : Option ℕ) (p : Partition)
    → linked footer previous (linked footer previous p) ≡ linked footer previous p
linked-twice none none p = refl
linked-twice none (some o) p = refl
linked-twice (some f) none p = refl
linked-twice (some f) (some o) p = refl

linked-this :
    (footer previous : Option ℕ) (p : Partition)
    → (linked footer previous p).this_partition ≡ p.this_partition
linked-this none none p = refl
linked-this none (some o) p = refl
linked-this (some f) none p = refl
linked-this (some f) (some o) p = refl

link-twice :
    (footer previous : Option ℕ) (ps : List Partition)
    → link footer previous (link footer previous ps) ≡ link footer previous ps
unfolding link
link-twice footer previous [] = refl
link-twice footer previous (p ∷ ps) =
    rw
      (
        linked-twice footer previous p,
        linked-this footer previous p,
        link-twice footer (some p.this_partition) ps,
      )
      refl

length-link :
    (footer previous : Option ℕ) (ps : List Partition)
    → length (link footer previous ps) ≡ length ps
unfolding link
length-link footer previous [] = refl
length-link footer previous (p ∷ ps) = ap suc (length-link footer (some p.this_partition) ps)

footer_of-linked :
    (footer previous : Option ℕ) (p : Option Partition)
    → footer_of (linked_at footer previous p) ≡ footer_of p
footer_of-linked footer previous none = refl
footer_of-linked none none (some p) = refl
footer_of-linked none (some o) (some p) = refl
footer_of-linked (some f) none (some p) = refl
footer_of-linked (some f) (some o) (some p) = refl

-- The offset of the footer partition, if the list ends with one.
abbrev pub footer_offset : List Partition → Option ℕ
footer_offset ps = footer_of (get_last_list_element (of_list ps))

footer_offset-link :
    (footer previous : Option ℕ) (ps : List Partition)
    → footer_offset (link footer previous ps) ≡ footer_offset ps
unfolding get_last_list_element link
footer_offset-link footer previous [] = refl
footer_offset-link footer previous (p ∷ ps) =
    let q : Partition = linked footer previous p in
    let rest : List Partition = link footer (some p.this_partition) ps in
    ap footer_of (
      ap (get_elem? (q ∷ rest)) (length-link footer (some p.this_partition) ps)
      ∙ link-get footer previous (p ∷ ps) (length ps))
    ∙ footer_of-linked footer (offset_before previous (p ∷ ps) (length ps))
        (get_elem? (p ∷ ps) (length ps))

update-of_list :
    (ps : List Partition)
    → update_partitions_in_memory (of_list ps) ≡ of_list (link (footer_offset ps) none ps)
unfolding update_partitions_in_memory get_list_length link
update-of_list [] = refl
update-of_list (p ∷ ps) =
    let some_left : (suc (length ps) == 0) ≡ false = ground arith in
    rw (some_left, length-link (footer_offset (p ∷ ps)) (some p.this_partition) ps) refl

-- The offset of the partition in front of place `i` of the list, and `kept` if there is none.
abbrev pub previous_of : ℕ → List Partition → ℕ → ℕ
previous_of kept ps zero = kept
previous_of kept [] (suc i) = kept
previous_of kept (p ∷ ps) (suc zero) = p.this_partition
previous_of kept (p ∷ ps) (suc (suc i)) = previous_of kept ps (suc i)

or_kept : ℕ → Option ℕ → ℕ
or_kept kept none = kept
or_kept kept (some offset) = offset

previous_of-is :
    (kept : ℕ) (first : Option ℕ) (ps : List Partition) (i : ℕ)
    → or_kept kept (offset_before first ps (suc i)) ≡ previous_of kept ps (suc i)
unfolding or_kept
previous_of-is kept first [] i = refl
previous_of-is kept first (p ∷ ps) zero = refl
previous_of-is kept first (p ∷ ps) (suc i) = previous_of-is kept (some p.this_partition) ps i

previous_is :
    (kept : ℕ) (ps : List Partition) (i : ℕ)
    → or_kept kept (offset_before none ps i) ≡ previous_of kept ps i
unfolding or_kept
previous_is kept ps zero = refl
previous_is kept ps (suc i) = previous_of-is kept none ps i

linked-fields :
    (footer previous : Option ℕ) (p : Partition)
    → linked footer previous p ≡ (record p {
      previous_partition = or_kept p.previous_partition previous;
      footer_partition = or_kept p.footer_partition footer;
    })
unfolding or_kept
linked-fields none none p = refl
linked-fields none (some o) p = refl
linked-fields (some f) none p = refl
linked-fields (some f) (some o) p = refl

get_elem?-behind :
    (ps : List Partition) (l : Partition) → get_elem? (ps ++ (l ∷ [])) (length ps) ≡ some l
get_elem?-behind [] l = refl
get_elem?-behind (p ∷ ps) l = get_elem?-behind ps l

footer_is :
    (kept : ℕ) (ps : List Partition) (l : Partition)
    → or_kept kept (footer_offset (ps ++ (l ∷ [])))
      ≡ (if is_footer_partition_pack l.key then l.this_partition else kept)
unfolding get_last_list_element or_kept
footer_is kept ps l =
    let place : length (ps ++ (l ∷ [])) - 1 ≡ length ps =
      omega (arith, length-append ps (l ∷ [])) in
    rw (last-of_list (ps ++ (l ∷ [])), place, get_elem?-behind ps l)
      (go (is_footer_partition_pack l.key))
  where
    go :
        (b : Bool)
        → or_kept kept (if b then some l.this_partition else none)
          ≡ (if b then l.this_partition else kept)
    go true = refl
    go false = refl

-- After the update of a sound list that is not empty, the partition at each place has the offset
-- of the one before it as its previous partition, if there is one before it, and the offset of the
-- last partition as its footer partition, if that is a footer partition. All its other fields stay
-- as they were, and so does the number of partitions.
pub update_partitions_in_memory-links :
    (ps : List Partition) (l : Partition) (i : ℕ) (p : Partition)
    → get_elem? (ps ++ (l ∷ [])) i ≡ some p
    → (let updated = update_partitions_in_memory (of_list (ps ++ (l ∷ []))) in
        (get_elem? updated.elements i
          ≡ some (record p {
            previous_partition = previous_of p.previous_partition (ps ++ (l ∷ [])) i;
            footer_partition =
                if is_footer_partition_pack l.key then l.this_partition else p.footer_partition;
          }))
        × (length updated.elements ≡ length (ps ++ (l ∷ []))))
update_partitions_in_memory-links ps l i p e =
    let all = ps ++ (l ∷ []) in
    let footer = footer_offset all in
    let previous = offset_before none all i in
    rw (update-of_list all) (
      link-get footer none all i
          ∙ ap (linked_at footer previous) e
          ∙ ap some (
              linked-fields footer previous p
              ∙ ap₂ (λ a b. record p { previous_partition = a; footer_partition = b })
                  (previous_is p.previous_partition all i) (footer_is p.footer_partition ps l)),
      length-link footer none all,
    )

-- A second update of a sound list changes nothing.
pub update_partitions_in_memory-twice :
    (ps : List Partition)
    → update_partitions_in_memory (update_partitions_in_memory (of_list ps))
      ≡ update_partitions_in_memory (of_list ps)
update_partitions_in_memory-twice ps =
    ap update_partitions_in_memory (update-of_list ps)
    ∙ update-of_list (link (footer_offset ps) none ps)
    ∙ ap of_list (
        ap (λ o. link o none (link (footer_offset ps) none ps))
          (footer_offset-link (footer_offset ps) none ps)
        ∙ link-twice (footer_offset ps) none ps)
    ∙ sym (update-of_list ps)
