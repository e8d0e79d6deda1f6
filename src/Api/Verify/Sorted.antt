-- ===== src/Api/Verify/Sorted.antt =====
-- The keys and the values of the map that sortedMap of server/api/handlers.go makes.
use facto.Base.{◌≡◌, Option, none, some, false, if◌then◌else◌, eq_bytes}
use facto.Go.Text.{Bytes}
use facto.Go.Json.{Value, Fields, null, bool, num, int, str, arr, obj, end, field}
use facto.Go.Strings.{lt_bytes}
use facto.Api.Verify.{sorted_map}

-- `m[k]`
unfoldable pub lookup : Bytes → Fields → Option Value
lookup k end = none
lookup k (field l v rest) = let found = lookup k rest in if eq_bytes k l then some v else found

-- A map's value in the copy: the maps directly in it are sorted too.
abbrev pub copied : Value → Value
copied (obj m) = obj (sorted_map m)
copied null = null
copied (bool b) = bool b
copied (num n) = num n
copied (int n) = int n
copied (str s) = str s
copied (arr vs) = arr vs

abbrev pub copied_option : Option Value → Option Value
copied_option none = none
copied_option (some v) = some (copied v)

-- No key is less than `k`.
abbrev pub NoneBelow : Bytes → Fields → Type 0
NoneBelow k end = Unit {0}
NoneBelow k (field l v rest) = (lt_bytes l k ≡ false) × NoneBelow k rest

-- Each key is at most the keys after it.
abbrev pub IsSorted : Fields → Type 0
IsSorted end = Unit {0}
IsSorted (field k v rest) = NoneBelow k rest × IsSorted rest
