-- ===== src/Notapp/ServerData/Order.antt =====
-- The order in which the entries are sorted.
use c380_1code.Base.{◌≡◌, ◌≢◌, arith}
use c380_1code.Notapp.ServerData.{
  UserEntry, Comparison, minus_one, one, equal, sort_entry_array_comp,
}

unfoldable pub opposite : Comparison → Comparison
opposite minus_one = one
opposite one = minus_one
opposite equal = equal

-- Exchanging the arguments of `sort_entry_array_comp` changes the sign of its result.
pub sort_entry_array_comp-swap :
    (e f : UserEntry) → sort_entry_array_comp f e ≡ opposite (sort_entry_array_comp e f)
unfolding sort_entry_array_comp opposite
sort_entry_array_comp-swap e f = ground arith

-- If `sort_entry_array_comp` is not 1 on `e` and `f`, nor on `f` and `g`, then it is not 1 on `e` and
-- `g`.
pub sort_entry_array_comp-transitive :
    (e f g : UserEntry)
    → sort_entry_array_comp e f ≢ one
    → sort_entry_array_comp f g ≢ one
    → sort_entry_array_comp e g ≢ one
unfolding sort_entry_array_comp
sort_entry_array_comp-transitive e f g h k = ground arith
