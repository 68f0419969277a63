-- ===== src/Valws/Hashtable/Flat.antt =====
-- A bucket's list that goes into an inner table makes a flat one.
use c380_1code.Base.{
  ℕ, zero, suc, ◌+◌, ◌%◌, ◌<◌, ◌≡◌, refl, sym, ◌∙◌, Option, some, List, [], ◌∷◌, arith, length,
  ull_mod, dec,
}
use c380_1code.Valws.Common.{KeyValue}
use c380_1code.Valws.LinkedList.{LinkedList, new_linked_list, sll_pop}
use c380_1code.Valws.LinkedList.Contents.{value_of, occ, IsProper, IsProper-head, IsProper-tail}
use c380_1code.Valws.Hashtable.{Table, hashtable_put_key_value, drain}
use c380_1code.Valws.Hashtable.Contents.{value_in, size_in, IsTable, no_pairs, Writes-grows}
use c380_1code.Valws.Hashtable.Place.{span}
use c380_1code.Valws.Hashtable.Split.{Inserts, later_keys, new_table}
use c380_1code.Valws.Hashtable.Shallow.{IsSparse, IsFlat, of_result, hashtable_put_key_value-Flat}

drain-nil :
    (insert : Table → KeyValue → Option Table) (rounds count : ℕ) (t : Table)
    → drain insert (suc rounds) (record { count = count; nodes = [] }) t
      ≡ some (t, record { count = count; nodes = [] })
unfolding drain sll_pop
drain-nil insert rounds count t = refl

drain-step :
    (insert : Table → KeyValue → Option Table) (rounds count : ℕ) (n : KeyValue)
    (ns : List KeyValue) (t t₁ : Table)
    → insert t n ≡ some t₁
    → drain insert (suc rounds) (record { count = count; nodes = n ∷ ns }) t
      ≡ drain insert rounds (record { count = dec (dec count); nodes = ns }) t₁
unfolding drain sll_pop
drain-step insert rounds count n ns t t₁ run = rw (run, drain) refl

-- the list of a bucket goes into an inner table, which stays flat
pub drain-Flat :
    (fuel r : ℕ) (g : ℕ → ℕ)
    → Inserts 1 r (hashtable_put_key_value (suc fuel))
    → IsSparse g
    → (ns : List KeyValue) (rounds count : ℕ) (t t' : Table) (l' : LinkedList) → length ns < rounds
    → IsProper ns
    → ((k : ℕ) → 0 < occ k ns → (k < ull_mod) × (k % span 1 ≡ r))
    → ((k : ℕ) → 0 < occ k ns → value_in t no_pairs k ≡ 0)
    → IsTable 1 r t
    → IsFlat t
    → length ns + size_in t no_pairs < ull_mod
    → ((j : ℕ) → j % span 1 ≡ r → 0 < value_of j ns + value_in t no_pairs j → 0 < g j)
    → drain (hashtable_put_key_value (suc fuel)) rounds (record { count = count; nodes = ns }) t
      ≡ some (t', l')
    → IsFlat t'
unfolding value_of occ
drain-Flat fuel r g ins sparse ns zero count t t' l' few proper placed fresh valid flat room below
      run =
    absurd (omega (arith, few))
drain-Flat fuel r g ins sparse [] (suc rounds) count t t' l' few proper placed fresh valid flat room
      below run =
    of_result (λ (p : Table × LinkedList). IsFlat p.0)
      (drain-nil (hashtable_put_key_value (suc fuel)) rounds count t) run flat
drain-Flat fuel r g ins sparse (n ∷ ns) (suc rounds) count t t' l' few proper placed fresh valid
      flat room below run =
    let (none_left, pos, small) = IsProper-head n ns proper in
    let here : 0 < occ n.key (n ∷ ns) = ground arith in
    let new = fresh n.key here in
    let (lt, home) = placed n.key here in
    let (t₁, run₁, valid₁, w) = ins t n valid lt home new pos small (omega (arith, room)) in
    let flat₁ =
      hashtable_put_key_value-Flat fuel r n t t₁ g valid flat home lt new pos small
        (omega (arith, room)) (sparse, λ j e p. below j e (ground (arith, p))) run₁ in
    drain-Flat fuel r g ins sparse ns rounds (dec (dec count)) t₁ t' l' (omega (arith, few))
      (IsProper-tail n ns proper) (λ k h. placed k (omega (arith, h))) (later_keys proper fresh w)
      valid₁ flat₁ (omega (arith, room, Writes-grows w new pos))
      (λ j e p. below j e (ground (arith, p, w.reads j, none_left, pos)))
      (sym (drain-step (hashtable_put_key_value (suc fuel)) rounds count n ns t t₁ run₁) ∙ run)

pub new_table-IsFlat : (level : ℕ) → IsFlat (new_table level)
unfolding new_table new_linked_list
new_table-IsFlat level = λ i lt. (refl, refl)
