-- ===== src/Handlers/Products.antt =====
-- src/routing/events/handlers/product_info_handler.cpp: the parsing of one product.
pub mod Laws
use steam_min_cpp.Prelude.{
  ℕ, zero, suc, ◌+◌, ◌/◌, ◌%◌, Option, none, some, List, [], ◌∷◌, length, drop, ltb, if◌then◌else◌,
}
use steam_min_cpp.Prelude.Results.{Result, ok, throws, undefined, ◌>>=◌}
use steam_min_cpp.Events.{ProductAppInfo, ProductPackageInfo}
use steam_min_cpp.Externals.{ProductInfo}
use steam_min_cpp.Vdf.{Object, VdfNode, text, object, find, Parsed, parse_binary, as_object}
use steam_min_cpp.Vdf.Text.{parse_text}
use steam_min_cpp.Vdf.Text.Stringify.{to_string}

-- `"0123456789abcdef"[n]`.
unfoldable pub hex_digit : ℕ → ℕ
hex_digit n = if ltb n 10 then 48 + n else 87 + n

unfoldable pub hexlify : List ℕ → List ℕ
unfolding hex_digit
hexlify [] = []
hexlify (b ∷ data_bytes) = hex_digit (b / 16) ∷ hex_digit (b % 16) ∷ hexlify data_bytes

-- `if (!buffer.empty()) buffer.pop_back()`.
unfoldable pub pop_back : List ℕ → List ℕ
pop_back [] = []
pop_back (b ∷ []) = []
pop_back (b ∷ d ∷ buffer) = b ∷ pop_back (d ∷ buffer)

-- The object of a parse whose bound was enough.
unfoldable pub parsed : Parsed → Result Object
parsed none = undefined
parsed (some (ok (obj, rest))) = ok obj
parsed (some (throws e)) = throws e
parsed (some undefined) = undefined

-- `vdf[key].as_object()`, where a missing key is given a default node, an empty string.
unfoldable pub member : List ℕ → Object → Result Object
unfolding find as_object
member key vdf = elim (find key vdf) [ none ↦ as_object (text []) | some node ↦ as_object node ]

abbrev pub appinfo_key : List ℕ
appinfo_key = b'a' ∷ b'p' ∷ b'p' ∷ b'i' ∷ b'n' ∷ b'f' ∷ b'o' ∷ []

unfoldable pub parse_app : ProductInfo → Result ProductAppInfo
unfolding ◌>>=◌ pop_back parsed member hexlify parse_text
parse_app app = do
  vdf ← parsed (parse_text (pop_back app.buffer))
  appinfo ← member appinfo_key vdf
  ok (record { appid = app.product_id; sha = hexlify app.sha; appinfo = object appinfo })

-- `buffer.data() + 4` with `buffer.size() - 4`, which wraps around on a shorter buffer.
unfoldable pub package_data : List ℕ → Result (List ℕ)
package_data buffer = if ltb (length buffer) 4 then undefined else ok (drop 4 buffer)

unfoldable pub parse_pkg : ProductInfo → Result ProductPackageInfo
unfolding ◌>>=◌ package_data parsed member hexlify parse_binary to_string
parse_pkg pkg = do
  data_bytes ← package_data pkg.buffer
  vdf ← parsed (parse_binary data_bytes)
  pkginfo ← member (to_string pkg.product_id) vdf
  ok (record { packageid = pkg.product_id; sha = hexlify pkg.sha; pkginfo = object pkginfo })

-- The loops of `push_back`: the first exception ends them.
unfoldable pub each {ℓ} : {A : Type ℓ} {B : Type 0} → (A → Result B) → List A → Result (List B)
unfolding ◌>>=◌
each parse [] = ok []
each parse (p ∷ products) = do info ← parse p; infos ← each parse products; ok (info ∷ infos)
