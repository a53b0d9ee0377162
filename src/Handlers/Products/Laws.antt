-- ===== src/Handlers/Products/Laws.antt =====
-- What src/routing/events/handlers/product_info_handler.cpp makes of the buffers that the server sends.
use steam_min_cpp.Prelude.{
  ℕ, ◌<◌, ◌≡◌, refl, ap, ◌∙◌, Option, none, some, List, [], ◌∷◌, ◌++◌, length, if◌then◌else◌, arith,
  length-append, drop-append, le→not_ltb, lt→ltb, inl, inr, Bool-cases,
}
use steam_min_cpp.Prelude.Results.{Result, ok, undefined, ◌>>=◌}
use steam_min_cpp.Events.{ProductAppInfo, ProductPackageInfo}
use steam_min_cpp.Externals.{ProductInfo}
use steam_min_cpp.Vdf.{
  Object, VdfNode, empty, entry, text, int32, uint64, float32, object, find, same_key, as_object,
  parse_binary, Parsed,
}
use steam_min_cpp.Vdf.RoundTrip.{encode, assign_all, parse_binary-encode}
use steam_min_cpp.Vdf.RoundTrip
use mathlib.Core.Option
use steam_min_cpp.Vdf.Keys.{IsUnique, assign_all-IsUnique}
use steam_min_cpp.Vdf.Text.{parse_text}
use steam_min_cpp.Vdf.Text.Stringify.{stringify, to_string, to_signed_string}
use steam_min_cpp.Vdf.Text.RoundTrip.{IsPlain, as_text, parse_text-stringify}
use steam_min_cpp.Handlers.Products.{
  hexlify, pop_back, parsed, member, appinfo_key, parse_app, package_data, parse_pkg,
}

pop_back-append : (s : List ℕ) (b : ℕ) → pop_back (s ++ b ∷ []) ≡ s
unfolding pop_back
pop_back-append [] b = refl
pop_back-append (c ∷ []) b = refl
pop_back-append (c ∷ d ∷ s) b = ap (◌∷◌ c) (pop_back-append (d ∷ s) b)

member_lem :
    (key : List ℕ) (vdf inner : Object)
    → find key vdf ≡ some (object inner)
    → member key vdf ≡ ok inner
unfolding member as_object
member_lem key vdf inner e =
    ap
      (λ (found : Option VdfNode). elim found [
        | none ↦ as_object (text [])
        | some node ↦ as_object node
      ])
      e

module _ (float_string : ℕ → List ℕ) where
  shown : VdfNode → VdfNode
  shown (object inner) = object (as_text float_string inner)
  shown (text s) = text s
  shown (int32 n) = text (to_signed_string n)
  shown (uint64 n) = text (to_string n)
  shown (float32 n) = text (float_string n)

  found_in : (key k : List ℕ) (node : VdfNode) (rest : Object) → Option VdfNode
  found_in key k node rest = if same_key key k then some node else find key rest

  step :
      (key k : List ℕ) (node : VdfNode) (rest rest' : Object)
      → find key rest' ≡ Option.map shown (find key rest)
      → (if same_key key k then some (shown node) else find key rest')
        ≡ Option.map shown (if same_key key k then some node else find key rest)
  step key k node rest rest' ih = elim (Bool-cases (same_key key k)) [
    | inl e ↦ rw e refl
    | inr e ↦ rw e ih
  ]

  -- A key is found in the text form of an object with the text form of its node.
  find-as_text :
      (key : List ℕ) (obj : Object)
      → find key (as_text float_string obj) ≡ Option.map shown (find key obj)
  unfolding find shown
  find-as_text key empty = refl
  find-as_text key (entry k (object inner) rest) =
      step key k (object inner) rest (as_text float_string rest) (find-as_text key rest)
  find-as_text key (entry k (text s) rest) =
      step key k (text s) rest (as_text float_string rest) (find-as_text key rest)
  find-as_text key (entry k (int32 n) rest) =
      step key k (int32 n) rest (as_text float_string rest) (find-as_text key rest)
  find-as_text key (entry k (uint64 n) rest) =
      step key k (uint64 n) rest (as_text float_string rest) (find-as_text key rest)
  find-as_text key (entry k (float32 n) rest) =
      step key k (float32 n) rest (as_text float_string rest) (find-as_text key rest)

  -- From the text that `stringify` writes of a document, with one more character, which is dropped, the
  -- app's information is the object under "appinfo", with every number as its text, and the hash in
  -- hexadecimal: if the document can be printed without escapes and has such an object.
  pub parse_app-stringify :
      (document inner : Object) (appid last : ℕ) (sha : List ℕ)
      → IsPlain float_string document
      → IsUnique document
      → find appinfo_key document ≡ some (object inner)
      → parse_app (record {
        product_id = appid;
        sha = sha;
        buffer = stringify float_string document ++ last ∷ [];
      })
        ≡ ok (record {
          appid = appid;
          sha = hexlify sha;
          appinfo = object (as_text float_string inner);
        })
  unfolding parse_app ◌>>=◌ parsed shown
  parse_app-stringify document inner appid last sha plain unique there =
      ap (λ (t : List ℕ). parsed (parse_text t) >>= rest)
        (pop_back-append (stringify float_string document) last)
      ∙ ap (λ (t : Parsed). parsed t >>= rest)
          (parse_text-stringify float_string document plain unique)
      ∙ ap (λ (t : Result Object). t >>= made)
          (member_lem appinfo_key (as_text float_string document) (as_text float_string inner)
            (find-as_text appinfo_key document ∙ ap (Option.map shown) there))
    where
      made : Object → Result ProductAppInfo
      made appinfo = ok (record { appid = appid; sha = hexlify sha; appinfo = object appinfo })

      rest : Object → Result ProductAppInfo
      rest vdf = member appinfo_key vdf >>= made

package_data_lem :
    (front data_bytes : List ℕ)
    → length front ≡ 4
    → package_data (front ++ data_bytes) ≡ ok data_bytes
unfolding package_data
package_data_lem front data_bytes four =
    rw
      (
        le→not_ltb 4 (length (front ++ data_bytes)) (omega (arith, length-append front data_bytes)),
        drop-append 4 front data_bytes four,
      )
      refl

-- From four bytes and the binary form of a document, the package's information is the object under the
-- decimal number of the package.
pub parse_pkg-encode :
    (document inner : Object) (packageid : ℕ) (front sha tail : List ℕ)
    → length front ≡ 4
    → RoundTrip.IsWf document
    → IsUnique document
    → find (to_string packageid) document ≡ some (object inner)
    → parse_pkg (record {
      product_id = packageid;
      sha = sha;
      buffer = front ++ encode document (0x08 ∷ tail);
    })
      ≡ ok (record { packageid = packageid; sha = hexlify sha; pkginfo = object inner })
unfolding parse_pkg ◌>>=◌ parsed package_data
parse_pkg-encode document inner packageid front sha tail four wf unique there =
    ap (λ (t : Result (List ℕ)). t >>= λ data_bytes. parsed (parse_binary data_bytes) >>= rest)
      (package_data_lem front (encode document (0x08 ∷ tail)) four)
    ∙ ap (λ (t : Parsed). parsed t >>= rest) (parse_binary-encode document tail wf)
    ∙ ap rest (assign_all-IsUnique document unique)
    ∙ ap (λ (t : Result Object). t >>= made) (member_lem (to_string packageid) document inner there)
  where
    made : Object → Result ProductPackageInfo
    made pkginfo =
        ok (record { packageid = packageid; sha = hexlify sha; pkginfo = object pkginfo })

    rest : Object → Result ProductPackageInfo
    rest vdf = member (to_string packageid) vdf >>= made

-- A buffer of fewer than four bytes is read out of bounds.
pub parse_pkg_short : (pkg : ProductInfo) → length pkg.buffer < 4 → parse_pkg pkg ≡ undefined
unfolding parse_pkg ◌>>=◌ package_data
parse_pkg_short pkg h = rw (lt→ltb (length pkg.buffer) 4 h) refl
