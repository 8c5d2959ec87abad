-- ===== src/State/Valid/Remove.antt =====
-- `remove` and the loops over it (src/capabilities/state.rs).
use lur.Base.{
  ◌≡◌, refl, inl, inr, Option, none, some, Option-cases, Bool, List, [], ◌∷◌, arith, if◌then◌else◌,
}
use lur.Base.Bytes.{Bytes, bytes_eq, bytes_eq_iff}
use lur.Base.Dict.{
  find, find-erase, erase-Uniq, total-erase, contains, contains-keys_where, keys_where,
}
use lur.Base.Ticks.{find-erase_tick, erase_tick-IsAscending}
use lur.State.Entry.{Entry}
use lur.State.Inner.{Inner, remove, remove_all}
use lur.State.Valid.{IsValid}

pub find-remove :
    (k j : Bytes) (s : Inner)
    → find j (remove k s).map ≡ (if bytes_eq k j then none else find j s.map)
unfolding remove
find-remove k j s = ground (arith, find-erase k j s.map, bytes_eq_iff k j)

module _ (k : Bytes) {s : Inner} (v : IsValid s) where
  remove-IsValid_hit : (e : Entry) → find k s.map ≡ some e → IsValid (remove k s)
  unfolding remove
  remove-IsValid_hit e h =
      rw (h, remove)
        (record {
          uniq = erase-Uniq k s.map v.uniq;
          counted = ground (arith, total-erase (λ (e : Entry). e.size) k s.map v.uniq, v.counted);
          ascending =
              ground (arith, erase_tick-IsAscending e.tick s.order v.ascending, v.ascending);
          indexed = λ t j p.
              let (x, found, flag, same) =
                v.indexed t j (ground (arith, find-erase_tick e.tick t s.order)) in
              (
                x,
                ground (
                  arith,
                  find-erase k j s.map,
                  find-erase_tick e.tick t s.order,
                  bytes_eq_iff k j,
                ),
                flag,
                same,
              );
          indexes = λ j f p q. ground (
            arith,
            find-erase k j s.map,
            v.indexes j f,
            v.indexes k e h,
            find-erase_tick e.tick f.tick s.order,
            bytes_eq_iff k j,
          );
          stamped = λ t j p. ground (arith, find-erase_tick e.tick t s.order, v.stamped t j);
          versioned = λ j f p. ground (arith, find-erase k j s.map, v.versioned j f);
        })

  pub remove-IsValid : IsValid (remove k s)
  unfolding remove
  remove-IsValid = elim (Option-cases (find k s.map)) [
    | inl miss ↦ rw (miss, remove) v
    | inr (e, hit) ↦ remove-IsValid_hit e hit
  ]

pub remove_all-IsValid : (ks : List Bytes) {s : Inner} → IsValid s → IsValid (remove_all ks s)
unfolding remove_all
remove_all-IsValid [] v = v
remove_all-IsValid (k ∷ ks) v = remove_all-IsValid ks (remove-IsValid k v)

pub find-remove_all :
    (ks : List Bytes) (j : Bytes) (s : Inner)
    → find j (remove_all ks s).map ≡ (if contains j ks then none else find j s.map)
unfolding remove_all contains
find-remove_all [] j s = refl
find-remove_all (k ∷ ks) j s = ground (arith, find-remove_all ks j (remove k s), find-remove k j s)

-- What is left of an entry when those that pass a test are removed.
abbrev pub unless : (Entry → Bool) → Option Entry → Option Entry
unless p none = none
unless p (some e) = if p e then none else some e

pub find-remove_where :
    (p : Entry → Bool) (j : Bytes) (s : Inner)
    → IsValid s
    → find j (remove_all (keys_where p s.map) s).map ≡ unless p (find j s.map)
find-remove_where p j s v =
    ground (arith, find-remove_all (keys_where p s.map) j s, contains-keys_where p j s.map v.uniq)
