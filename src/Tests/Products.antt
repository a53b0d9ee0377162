-- ===== src/Tests/Products.antt =====
-- The buffers of an app and of a package.
use steam_min_cpp.Prelude.{ℕ, ◌≡◌, refl, some, List, [], ◌∷◌, ◌++◌, arith}
use steam_min_cpp.Prelude.Results.{ok}
use steam_min_cpp.Vdf.{Object, empty, entry, int32, object, find, same_key}
use steam_min_cpp.Vdf.Keys.{IsUnique}
use steam_min_cpp.Vdf.RoundTrip.{encode}
use steam_min_cpp.Vdf.Text.Stringify.{stringify, to_string}
use steam_min_cpp.Vdf.Text.RoundTrip.{as_text}
use steam_min_cpp.Handlers.Products.{appinfo_key, hexlify, parse_app, parse_pkg}
use steam_min_cpp.Handlers.Products.Laws.{parse_app-stringify, parse_pkg-encode}

abbrev no_floats : ℕ → List ℕ
no_floats n = []

-- "id" 440.
abbrev inner : Object
inner = entry (105 ∷ 100 ∷ []) (int32 440) empty

abbrev app_document : Object
app_document = entry appinfo_key (object inner) empty

app_document-IsUnique : IsUnique app_document
unfolding IsUnique
app_document-IsUnique = (tt, (tt, tt), tt)

app_found : find appinfo_key app_document ≡ some (object inner)
unfolding find same_key
app_found = refl

parse_app-stringify_example :
    parse_app (record {
      product_id = 440;
      sha = 171 ∷ [];
      buffer = stringify no_floats app_document ++ 0 ∷ [];
    })
    ≡ ok (record {
      appid = 440;
      sha = hexlify (171 ∷ []);
      appinfo = object (as_text no_floats inner);
    })
parse_app-stringify_example =
    parse_app-stringify no_floats app_document inner 440 0 (171 ∷ [])
      (
        (
          (omega arith, omega arith),
          (
            (omega arith, omega arith),
            (
              (omega arith, omega arith),
              (
                (omega arith, omega arith),
                (
                  (omega arith, omega arith),
                  ((omega arith, omega arith), ((omega arith, omega arith), tt)),
                ),
              ),
            ),
          ),
        ),
        (((omega arith, omega arith), ((omega arith, omega arith), tt)), tt),
        tt,
      )
      app_document-IsUnique app_found

abbrev package_document : Object
package_document = entry (55 ∷ []) (object inner) empty

package_document-IsUnique : IsUnique package_document
unfolding IsUnique
package_document-IsUnique = (tt, (tt, tt), tt)

package_found : find (to_string 7) package_document ≡ some (object inner)
unfolding find same_key to_string
package_found = refl

parse_pkg-encode_example :
    parse_pkg (record {
      product_id = 7;
      sha = [];
      buffer = (1 ∷ 2 ∷ 3 ∷ 4 ∷ []) ++ encode package_document (0x08 ∷ []);
    })
    ≡ ok (record { packageid = 7; sha = hexlify []; pkginfo = object inner })
parse_pkg-encode_example =
    parse_pkg-encode package_document inner 7 (1 ∷ 2 ∷ 3 ∷ 4 ∷ []) [] [] refl
      ((omega arith, tt), ((omega arith, (omega arith, tt)), omega arith, tt), tt)
      package_document-IsUnique package_found

-- 171 is ab.
hex_ab : hexlify (171 ∷ []) ≡ 97 ∷ 98 ∷ []
unfolding hexlify
hex_ab = refl
