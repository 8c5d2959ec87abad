-- ===== src/Validate/Check/Items.antt =====
-- The items of a list, and the number of them that are kept (src/capabilities/validate.rs).
use lur.Base.{
  ℕ, suc, ◌≡◌, ◌≤◌, ◌<◌, refl, inl, inr, Bool-cases, false, Option, none, some, List, length, arith,
}
use lur.Validate.Value.{Value, nil, null, other, boolean, integer, number, text, table, sequence}
use lur.Validate.Schema.{ListRule}
use lur.Validate.Issues.{Step, is_required, not_list, too_few, too_many, Ctx}
use lur.Validate.Scalar.{under, over}
use lur.Validate.Check.{Items, sized, list_items, counted}
use lur.Validate.Check.Keeps.{}
use lur.Validate.Check.Weight.{weight, fail-grows}
use lur.Validate.Check.Scalars.{}

abbrev pub ItemsPost : ListRule → Ctx → Items → Type 0
ItemsPost r cx (none, cx') = weight cx < weight cx'
ItemsPost r cx (some vs, cx') = (cx' ≡ cx) × (over r.max_items (length vs) ≡ false)

sized-Post :
    (r : ListRule) (path : List Step) (cx : Ctx) (o : Option (List Value))
    → cx.truncated ≡ false
    → ItemsPost r cx (sized r path cx o)
unfolding sized
sized-Post r path cx none room = fail-grows path not_list cx room
sized-Post r path cx (some vs) room = elim (Bool-cases (under r.min_items (length vs))) [
  | inl few ↦ rw few (fail-grows path too_few cx room)
  | inr enough ↦ elim (Bool-cases (over r.max_items (length vs))) [
    | inl many ↦ rw (enough, many) (fail-grows path too_many cx room)
    | inr fine ↦ rw (enough, fine) (refl, fine)
  ]
]

pub list_items-Post :
    (r : ListRule) (v : Value) (path : List Step) (cx : Ctx)
    → cx.truncated ≡ false
    → ItemsPost r cx (list_items r v path cx)
unfolding list_items
list_items-Post r nil path cx room = fail-grows path is_required cx room
list_items-Post r (table es len) path cx room = sized-Post r path cx (sequence es len) room
list_items-Post r null path cx room = sized-Post r path cx none room
list_items-Post r other path cx room = sized-Post r path cx none room
list_items-Post r (boolean b) path cx room = sized-Post r path cx none room
list_items-Post r (integer i) path cx room = sized-Post r path cx none room
list_items-Post r (number x) path cx room = sized-Post r path cx none room
list_items-Post r (text s) path cx room = sized-Post r path cx none room

pub counted-le : (w : Option Value) (n : ℕ) → counted w n ≤ suc n
unfolding counted
counted-le none n = omega arith
counted-le (some nil) n = omega arith
counted-le (some null) n = omega arith
counted-le (some other) n = omega arith
counted-le (some (boolean b)) n = omega arith
counted-le (some (integer i)) n = omega arith
counted-le (some (number x)) n = omega arith
counted-le (some (text s)) n = omega arith
counted-le (some (table es k)) n = omega arith
