-- ===== src/Paper/Symbols.antt =====
-- `_get_quote_currency` of src/trading/paper.py.
use crypto_master.Prelude.{
  ℕ, ◌-◌, Bool, true, false, [], ◌∷◌, if◌then◌else◌, ◌==◌, ltb, length, drop, ◌≡◌, refl, ◌++◌,
  arith,
}
use crypto_master.Text.{Text, text, same}

abbrev pub slash : ℕ
slash = 47

-- `"/" in s`
unfoldable pub has_slash : Text → Bool
has_slash [] = false
has_slash (c ∷ s) = let rest = has_slash s in if c == slash then true else rest

-- The text up to the next slash.
unfoldable pub up_to_slash : Text → Text
up_to_slash [] = []
up_to_slash (c ∷ s) = let rest = up_to_slash s in if c == slash then [] else c ∷ rest

-- `s.split("/")[1]`, for a text that has a slash.
unfoldable pub second_part : Text → Text
unfolding up_to_slash
second_part [] = []
second_part (c ∷ s) = let rest = second_part s in if c == slash then up_to_slash s else rest

-- `s[-n:]`, for a text at least as long.
unfoldable pub last : ℕ → Text → Text
last n s = drop (length s - n) s

-- `s.endswith(suffix)`
unfoldable pub ends_with : Text → Text → Bool
unfolding last
ends_with s suffix =
    if ltb (length s) (length suffix) then false else same (last (length suffix) s) suffix

unfoldable pub get_quote_currency : Text → Text
unfolding has_slash second_part ends_with
get_quote_currency symbol =
    if has_slash symbol
    then second_part symbol
    else if ends_with symbol (text "USDT")
    then text "USDT"
    else if ends_with symbol (text "USD")
    then text "USD"
    else if ends_with symbol (text "BTC")
    then text "BTC"
    else if ltb 4 (length symbol)
    then last 4 symbol
    else symbol

up_to_slash_plain : (s : Text) → has_slash s ≡ false → up_to_slash s ≡ s
unfolding has_slash up_to_slash
up_to_slash_plain [] h = refl
up_to_slash_plain (c ∷ s) h = ground (arith, up_to_slash_plain s)

second_part-join :
    (base quote : Text)
    → has_slash base ≡ false
    → has_slash quote ≡ false
    → second_part (base ++ slash ∷ quote) ≡ quote
unfolding second_part has_slash
second_part-join [] quote h k = up_to_slash_plain quote k
second_part-join (c ∷ s) quote h k = ground (arith, second_part-join s quote)

has_slash-join : (base quote : Text) → has_slash (base ++ slash ∷ quote) ≡ true
unfolding has_slash
has_slash-join [] quote = refl
has_slash-join (c ∷ s) quote = ground (arith, has_slash-join s quote)

-- The quote currency of a symbol written BASE/QUOTE is QUOTE, where neither part has a slash.
pub get_quote_currency-join :
    (base quote : Text)
    → has_slash base ≡ false
    → has_slash quote ≡ false
    → get_quote_currency (base ++ slash ∷ quote) ≡ quote
unfolding get_quote_currency
get_quote_currency-join base quote h k =
    rw (has_slash-join base quote) (second_part-join base quote h k)
