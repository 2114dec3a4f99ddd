-- ===== src/Server/Unique.antt =====
-- Each id stands once in the registry, at all times.
use nest_quickfix.Prelude.{ℕ, none, some, Option}
use nest_quickfix.Text.{Text, text_Eq}
use nest_quickfix.OrderedMap
use nest_quickfix.OrderedMap.Unique.{IsUnique, set-IsUnique, delete-IsUnique}
use nest_quickfix.World.{World}
use nest_quickfix.Session.{new_session}
use nest_quickfix.Session.Registry.{remove_session, remove_found}
use nest_quickfix.Session.Stable.{IsStable}
use nest_quickfix.Manager.{register}
use nest_quickfix.Server.Open.{IsOpen}

abbrev pub HasUniqueIds : World → Type 0
HasUniqueIds w = IsUnique w.registry

remove_found-HasUniqueIds :
    (x : Option ℕ) (id : Text) (w : World) → HasUniqueIds w → HasUniqueIds (remove_found x id w)
unfolding remove_found
remove_found-HasUniqueIds none id w h = h
remove_found-HasUniqueIds (some r) id w h = delete-IsUnique w.registry id h

HasUniqueIds-IsStable : IsStable HasUniqueIds
unfolding remove_session
HasUniqueIds-IsStable = record {
  put = λ r s w p h. h;
  socket = λ k s w h. h;
  log = λ e w h. h;
  remove = λ id w h. remove_found-HasUniqueIds (OrderedMap.get w.registry id) id w h;
  entered = λ room id w h. h;
  exited = λ room id w h. h;
}

pub HasUniqueIds-IsOpen : IsOpen HasUniqueIds
unfolding register new_session
HasUniqueIds-IsOpen = record {
  stable = HasUniqueIds-IsStable;
  create = λ config k w h. h;
  enrolled = λ id r w known f h. set-IsUnique w.registry id r h;
  cleared = λ w h. tt;
  active = λ m w h. h;
  clock = λ now date w h. h;
}
