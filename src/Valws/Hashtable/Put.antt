-- ===== src/Valws/Hashtable/Put.antt =====
-- `hashtable_put_key_value` and `put`: enough fuel is given, the table stays well formed, and the
-- value of one key changes.
use mathlib.Core.Path.{subst}
use c380_1code.Base.{
  ℕ, zero, suc, ◌+◌, ◌%◌, ◌≤◌, ◌<◌, ◌≡◌, Option, refl, sym, ap, ◌∙◌, arith, ull_mod,
}
use c380_1code.Valws.Common.{KeyValue}
use c380_1code.Valws.LinkedList.{LinkedList, sll_add, sll_put_key_value}
use c380_1code.Valws.LinkedList.Contents as Chain
use c380_1code.Valws.LinkedList.Contents.{value_of, occ, present}
use c380_1code.Valws.LinkedList.Operations.{sll_put_key_value-Writes, sll_add-Writes, count-sll_add}
use c380_1code.Valws.Hashtable.{Table, null, table, bucket_index, hashtable_put_key_value, put}
use c380_1code.Valws.Hashtable.Contents.{value_in, size_in, IsTable, no_pairs, Writes}
use c380_1code.Valws.Hashtable.Split.{Inserts}
use c380_1code.Valws.Hashtable.Insert.{Table-cases, is_null, is_table, Wrote, list_step, table_step}
use c380_1code.Valws.Hashtable.Place.{span}
use c380_1code.Valws.Hashtable.Buckets.{
  value_in-list, value_in-step, count-sll_put_key_value, grown-IsList, bucket_home, bucket-IsList,
  bucket_room, bucket_table, child_room, child_value, count_room,
}

module _ {level residue count at shifts : ℕ} (tables : ℕ → Table) (lists : ℕ → LinkedList)
    (valid : IsTable level residue (table count at shifts tables lists)) (fuel : ℕ)
    (ih : (r : ℕ) → suc level < 16 → Inserts (suc level) r (hashtable_put_key_value fuel))
    (room : size_in (table count at shifts tables lists) no_pairs + 1 < ull_mod) where
  hashtable_put_key_value-step :
      (kv : KeyValue)
      → kv.key < ull_mod
      → kv.key % span level ≡ residue
      → value_in (table count at shifts tables lists) no_pairs kv.key ≡ 0
      → 0 < kv.value
      → kv.value < ull_mod
      → Wrote level residue kv.key kv.value
          (table count at shifts tables lists)
          (hashtable_put_key_value (suc fuel) (table count at shifts tables lists) kv)
  unfolding hashtable_put_key_value
  hashtable_put_key_value-step kv small home new pos lt =
      let k = kv.key in
      let i = bucket_index k shifts in
      let l = lists i in
      let next = bucket_home tables lists valid k home in
      let first = value_in-step count at shifts tables lists no_pairs k in
      let counts = count_room tables lists valid k home room in
      elim (Table-cases (tables i)) [
        | is_null e ↦
            let fresh : value_of k l.nodes ≡ 0 =
              sym (value_in-list (tables i) l k e) ∙ (sym first ∙ new) in
            let is_list = bucket-IsList tables lists valid k home e in
            let absent : occ k l.nodes ≡ 0 = is_list.proper.exact k ∙ ap present fresh in
            let w = sll_put_key_value-Writes l kv absent pos in
            let counted = count-sll_put_key_value l kv fresh in
            rw e (
              list_step tables lists valid counts k kv.value i pos refl (omega arith) (ih _) e
                (sll_put_key_value l kv) w
                (grown-IsList l _ w pos lt small next (bucket_room tables lists valid k home room e)
                  counted is_list)
                counted)
        | is_table c v s ts ls e ↦
            let child = table c v s ts ls in
            let old = bucket_table tables lists valid k home child e (λ h. absurd (cc)) in
            let zero_in : value_in child no_pairs k ≡ 0 =
              child_value tables lists valid k home child e old ∙ new in
            let (inner, run, new', w) =
              ih _ old.1.within child kv old small next zero_in pos lt
                (child_room tables lists valid k home child e old room) in
            rw (e, run)
              (table_step tables lists valid counts k kv.value i pos refl (omega arith) child e old
                new' w)
      ]

pub hashtable_put_key_value-Inserts :
    (fuel level residue : ℕ)
    → 16 ≤ fuel + level
    → level < 16
    → Inserts level residue (hashtable_put_key_value fuel)
hashtable_put_key_value-Inserts zero level residue enough within t kv valid small home new pos lt
      room =
    absurd (omega arith)
hashtable_put_key_value-Inserts (suc fuel) level residue enough within null kv valid small home new
      pos lt room =
    absurd valid
hashtable_put_key_value-Inserts (suc fuel) level residue enough within
      (table count at shifts tables lists) kv valid small home new pos lt room =
    hashtable_put_key_value-step tables lists valid fuel
      (λ r below. hashtable_put_key_value-Inserts fuel (suc level) r (omega arith) below) room kv
      small home new pos lt

-- what `put` does to a table at `level` on which the path of `k` leads
abbrev Puts : ℕ → ℕ → ℕ → (Table → ℕ → Option Table) → Type 0
Puts level residue k run =
    (t : Table)
    → IsTable level residue t
    → k % span level ≡ residue
    → value_in t no_pairs k + 1 < ull_mod
    → size_in t no_pairs + 1 < ull_mod
    → Wrote level residue k (value_in t no_pairs k + 1) t (run t k)

module _ {level residue count at shifts : ℕ} (tables : ℕ → Table) (lists : ℕ → LinkedList)
    (valid : IsTable level residue (table count at shifts tables lists)) (fuel : ℕ)
    (enough : 16 ≤ suc fuel + level) (k : ℕ) (small : k < ull_mod)
    (ih : (r : ℕ) → suc level < 16 → Puts (suc level) r k (put fuel))
    (home : k % span level ≡ residue)
    (room : size_in (table count at shifts tables lists) no_pairs + 1 < ull_mod) where
  put-step :
      (v : ℕ)
      → value_in (table count at shifts tables lists) no_pairs k ≡ v
      → v + 1 < ull_mod
      → Wrote level residue k
          (v + 1)
          (table count at shifts tables lists)
          (put (suc fuel) (table count at shifts tables lists) k)
  unfolding put
  put-step v old_value lt =
      let i = bucket_index k shifts in
      let l = lists i in
      let next = bucket_home tables lists valid k home in
      let first = value_in-step count at shifts tables lists no_pairs k in
      let counts = count_room tables lists valid k home room in
      elim (Table-cases (tables i)) [
        | is_null e ↦
            let here : value_of k l.nodes ≡ v =
              sym (value_in-list (tables i) l k e) ∙ (sym first ∙ old_value) in
            let is_list = bucket-IsList tables lists valid k home e in
            let w : Chain.Writes k (v + 1) l (sll_add l k) =
              rw here at (sll_add-Writes l k is_list.proper (rw here lt)) in
            let counted = count-sll_add l k is_list.proper in
            rw e (
              list_step tables lists valid counts k (v + 1) i (omega arith) refl (omega arith)
                (λ below. hashtable_put_key_value-Inserts fuel (suc level) _ (omega arith) below) e
                (sll_add l k) w
                (grown-IsList l _ w (omega arith) lt small next
                  (bucket_room tables lists valid k home room e) counted is_list)
                counted)
        | is_table c at' s ts ls e ↦
            let child = table c at' s ts ls in
            let old = bucket_table tables lists valid k home child e (λ h. absurd (cc)) in
            let here : value_in child no_pairs k ≡ v =
              child_value tables lists valid k home child e old ∙ old_value in
            let (inner, run, new, w) =
              ih _ old.1.within child old next (rw here lt)
                (child_room tables lists valid k home child e old room) in
            rw (e, run)
              (table_step tables lists valid counts k (v + 1) i (omega arith) refl (omega arith)
                child e old new
                (subst (λ y. Writes k (y + 1) child no_pairs inner no_pairs) here w))
      ]

pub put-Puts :
    (fuel level residue : ℕ)
    → 16 ≤ fuel + level
    → level < 16
    → (k : ℕ) → k < ull_mod
    → Puts level residue k (put fuel)
put-Puts zero level residue enough within k small t valid home lt room = absurd (omega arith)
put-Puts (suc fuel) level residue enough within k small null valid home lt room = absurd valid
put-Puts (suc fuel) level residue enough within k small (table count at shifts tables lists) valid
      home lt room =
    put-step tables lists valid fuel enough k small
      (λ r below. put-Puts fuel (suc level) r (omega arith) below k small) home room _ refl lt
