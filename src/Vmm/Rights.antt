-- ===== src/Vmm/Rights.antt =====
-- What the entries of a directory let through, `own_table` of src/kernel/vmm.c's vmm_map_page_in.
use luminary.Base.{
  ℕ, ◌+◌, ◌*◌, ◌/◌, ◌%◌, ◌≡◌, refl, ap, sym, subst, ◌∙◌, inl, inr, true, false, not, ◌&&◌, ◌||◌,
  none, some, ◌==◌, update_self, arith, Bool-cases,
}
use luminary.Pmm.{page_size}
use luminary.Vmm.{
  Memory, Vmm, frame_of, is_present, is_user, is_write, user_bit, set_word, zero_frame, copy_frame,
  new_table, own_table,
}
use luminary.Vmm.Table.{HasMemory, alloc-Takes}

-- What an entry of a directory lets through: the user, if the flags do, and writes, unless it was there without.
abbrev pub Grants : (flags old new : ℕ) → Type 0
Grants flags old new =
    ((not (is_user flags) || is_user new) ≡ true)
    × ((is_present old && not (is_write old) || is_write new) ≡ true)

fresh-Grants : (frame flags old : ℕ) → Grants flags old (frame * page_size + 3 + user_bit flags)
fresh-Grants frame flags old =
    let e = frame * page_size + 3 + user_bit flags in
    let user : is_user flags ≡ true → is_user e ≡ true = λ on. ground (arith, on) in
    let write : is_write e ≡ true = ground arith in (ground (arith, user), ground (arith, write))

new_table-Grants :
    (dir pdi flags : ℕ) (s s' : Vmm) (fill : Memory → ℕ → Memory)
    → HasMemory s.pmm
    → new_table fill dir pdi flags s ≡ some s'
    → Grants flags (s.mem dir pdi) (s'.mem dir pdi)
unfolding new_table
new_table-Grants dir pdi flags s s' fill m made = elim (alloc-Takes s.pmm m) [
  | inl (panics, full) ↦
      let stopped : new_table fill dir pdi flags s ≡ none = rw (new_table, panics) refl in absurd cc
  | inr (frame, p', got, t) ↦
      let e = frame * page_size + 3 + user_bit flags in
      let mem = fill s.mem (frame_of (frame * page_size)) in
      let here : new_table fill dir pdi flags s
          ≡ some (record { pmm = p'; mem = set_word mem dir pdi e }) =
        rw (new_table, got) refl in
      let it : record { pmm = p'; mem = set_word mem dir pdi e } ≡ s' = cc in
      let word : set_word mem dir pdi e dir pdi ≡ e =
        ap (λ h. h pdi) (update_self mem dir _) ∙ update_self (mem dir) pdi e in
      subst (Grants flags (s.mem dir pdi)) (sym word ∙ ap (λ v. v.mem dir pdi) it)
        (fresh-Grants frame flags (s.mem dir pdi))
]

user-Grants : (flags e : ℕ) → is_present e ≡ true → is_user e ≡ false → Grants flags e (e + 4)
user-Grants flags e there off =
    let zero_bit : e / 4 % 2 ≡ 0 = ground (arith, off) in
    let user : (e + 4) / 4 % 2 ≡ 1 = omega (arith, zero_bit) in
    let write : (e + 4) / 2 % 2 ≡ e / 2 % 2 = omega arith in
    (ground (arith, user), ground (arith, write, there))

pub own_table-Grants :
    (page_directory dir pdi flags : ℕ) (s s' : Vmm)
    → HasMemory s.pmm
    → own_table page_directory dir pdi flags s ≡ some s'
    → Grants flags (s.mem dir pdi) (s'.mem dir pdi)
unfolding own_table
own_table-Grants page_directory dir pdi flags s s' m made =
    let entry = s.mem dir pdi in
    elim (Bool-cases (is_present entry)) [
      | inr absent ↦
          new_table-Grants dir pdi flags s s' zero_frame m
            (sym (rw (own_table, absent) refl) ∙ made)
      | inl present ↦
          elim (Bool-cases (
            not (dir == frame_of page_directory)
            && frame_of entry == frame_of (s.mem (frame_of page_directory) pdi))) [
              | inl shared ↦
                  new_table-Grants dir pdi flags s s' (λ mem to. copy_frame mem to (frame_of entry))
                    m (sym (rw (own_table, present, shared) refl) ∙ made)
              | inr private ↦ elim (Bool-cases (is_user flags && not (is_user entry))) [
                | inl upgrade ↦
                    let here : own_table page_directory dir pdi flags s
                        ≡ some (record s { mem = set_word s.mem dir pdi (entry + 4) }) =
                      rw (own_table, present, private, upgrade) refl in
                    let it : record s { mem = set_word s.mem dir pdi (entry + 4) } ≡ s' = cc in
                    let word : set_word s.mem dir pdi (entry + 4) dir pdi ≡ entry + 4 =
                      ap (λ h. h pdi) (update_self s.mem dir _) ∙ update_self (s.mem dir) pdi _ in
                    subst (Grants flags entry) (sym word ∙ ap (λ v. v.mem dir pdi) it)
                      (user-Grants flags entry present (ground (arith, upgrade)))
                | inr fine ↦
                    let here : own_table page_directory dir pdi flags s ≡ some s =
                      rw (own_table, present, private, fine) refl in
                    let it : s ≡ s' = cc in
                    subst (Grants flags entry) (ap (λ v. v.mem dir pdi) it)
                      (ground (arith, fine), ground (arith, present))
              ]
            ]
    ]
