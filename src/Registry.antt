-- ===== src/Registry.antt =====
-- internal/appManagerArray.go: the apps of the configuration, by their ids.
pub mod Lookup
use pusher.Prelude.{
  Bool, true, false, Option, none, some, List, [], ◌∷◌, if◌then◌else◌, is_nil, Text, ◌==◌, Map, get,
  put,
}
use pusher.App.{App}

abbrev pub Registry : Type 0
Registry = Map App

-- the loop of Init
unfoldable pub add_apps : Registry → List App → Registry
add_apps r [] = r
add_apps r (a ∷ rest) = add_apps (put r a.id a) rest

-- Init: the apps, and whether there is an error
unfoldable pub init : List App → Registry × Bool
init apps = let r = add_apps [] apps in (r, is_nil r)

-- GetAllApps
unfoldable pub all_apps : Registry → List App
all_apps [] = []
all_apps ((id, a) ∷ rest) = a ∷ all_apps rest

-- GetAppSecret
unfoldable pub app_secret : Registry → Text → Option Text
app_secret r id = elim (get r id) [ none ↦ none | some a ↦ some a.secret ]

-- FindByID
unfoldable pub find_by_id : Registry → Text → Option App
find_by_id r id = get r id

-- FindByKey
unfoldable pub find_by_key : Registry → Text → Option App
find_by_key [] key = none
find_by_key ((id, a) ∷ rest) key =
    let later = find_by_key rest key in if a.key == key then some a else later
