-- ===== src/Units/Laws/Products.antt =====
-- The names of products fit the array that `strcpy` copies them to.
use libmbus.Base.{
  ℕ, ◌<◌, Bool, true, false, List, [], ◌∷◌, All, ltb→lt, refl, ◌≡◌, if◌then◌else◌, length, ltb,
}
use libmbus.Data.Variable.{VariableHeader}
use libmbus.Units.Text.{switch, is_among}
use libmbus.Units.Product.{
  products_abb_to_els, products_elv_to_slb, products_hyd_to_sbc, products_seo_to_zrm, product_name,
}

-- With the NUL, the text fits `buff[40]`.
IsShort : List ℕ → Type 0
IsShort s = ltb (length s) 40 ≡ true

if-IsShort : (c : Bool) (s t : List ℕ) → IsShort s → IsShort t → IsShort (if c then s else t)
if-IsShort true s t h k = h
if-IsShort false s t h k = k

switch-IsShort :
    (n : ℕ) (cases : List (List ℕ × List ℕ)) (t : List ℕ)
    → All (λ c. IsShort c.1) cases
    → IsShort t
    → IsShort (switch n cases t)
unfolding switch
switch-IsShort n [] t h k = k
switch-IsShort n ((labels, s) ∷ cases) t h k =
    if-IsShort (is_among n labels) s _ h.0 (switch-IsShort n cases t h.1 k)

ruleset short = (if-IsShort, switch-IsShort, refl)

products_abb_to_els-IsShort :
    (m : ℕ) (h : VariableHeader) (s : List ℕ) → IsShort s → IsShort (products_abb_to_els m h s)
unfolding products_abb_to_els IsShort
products_abb_to_els-IsShort m h s k = search (short) depth 16

products_elv_to_slb-IsShort :
    (m : ℕ) (h : VariableHeader) (s : List ℕ) → IsShort s → IsShort (products_elv_to_slb m h s)
unfolding products_elv_to_slb IsShort
products_elv_to_slb-IsShort m h s k = search (short) depth 16

products_hyd_to_sbc-IsShort :
    (m : ℕ) (h : VariableHeader) (s : List ℕ) → IsShort s → IsShort (products_hyd_to_sbc m h s)
unfolding products_hyd_to_sbc IsShort
products_hyd_to_sbc-IsShort m h s k = search (short) depth 16

products_seo_to_zrm-IsShort :
    (m : ℕ) (h : VariableHeader) (s : List ℕ) → IsShort s → IsShort (products_seo_to_zrm m h s)
unfolding products_seo_to_zrm IsShort
products_seo_to_zrm-IsShort m h s k = search (short) depth 16

-- Whatever the header of an answer is, the name that `mbus_data_product_name` copies with `strcpy` fits
-- its array of 40 characters with the NUL behind it.
pub product_name-fits : (h : VariableHeader) → length (product_name h) < 40
unfolding product_name IsShort
product_name-fits h = ltb→lt _ _ (
    products_abb_to_els-IsShort _ h _ (
      products_elv_to_slb-IsShort _ h _
        (products_hyd_to_sbc-IsShort _ h _ (products_seo_to_zrm-IsShort _ h [] refl))))
