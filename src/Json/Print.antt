-- ===== src/Json/Print.antt =====
-- Values as compact JSON text, in the way `json.Marshal` writes strings.
use argonaut.Json.Strings.{quote}
use argonaut.Json.Value.{
  Json, Items, Members, null, bool, number, text, array, object, no_items, item, no_members, member,
}
use argonaut.Prelude.{Bool, true, false, [], ◌∷◌, ◌++◌, Bytes, codes}

abbrev pub comma : Bool → Bytes
comma true = []
comma false = b',' ∷ []

abbrev pub quoted_text : Bytes → Bytes
quoted_text s = b'"' ∷ (quote s ++ b'"' ∷ [])

unfoldable mutual
  pub print : Json → Bytes
  print null = codes "null"
  print (bool true) = codes "true"
  print (bool false) = codes "false"
  print (number n) = n
  print (text s) = quoted_text s
  print (array vs) = b'[' ∷ print_items vs true
  print (object ms) = b'{' ∷ print_members ms true

  pub print_items : Items → Bool → Bytes
  print_items no_items first = b']' ∷ []
  print_items (item v vs) first = comma first ++ (print v ++ print_items vs false)

  pub print_members : Members → Bool → Bytes
  print_members no_members first = b'}' ∷ []
  print_members (member k v ms) first =
      comma first ++ (quoted_text k ++ b':' ∷ (print v ++ print_members ms false))
