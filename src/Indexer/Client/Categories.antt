-- ===== src/Indexer/Client/Categories.antt =====
-- indexer/client.go: the categories by their names and by the numbers of Torznab.
use mediarr.Common.{
  if◌then◌else◌, nat_eq, string_eq, String, ◌≡◌, refl, ◌⊎◌, inl, inr, Bool, false, ◌||◌, List, [],
  ◌∷◌,
}
use mediarr.Indexer.Client.{
  Category, category_all, category_movie, category_tv, category_audio, category_comics,
  category_software, category_anime, category_xxx, category_book, category_game,
}

abbrev is_one_of : String → List String → Bool
is_one_of s [] = false
is_one_of s (x ∷ xs) = string_eq.beq s x || is_one_of s xs

unfoldable pub parse_category : String → Category
parse_category s =
    if is_one_of s ("movie" ∷ "movies" ∷ [])
    then category_movie
    else if is_one_of s ("tv" ∷ "tvshow" ∷ "tvshows" ∷ [])
    then category_tv
    else if is_one_of s ("audio" ∷ "music" ∷ [])
    then category_audio
    else if is_one_of s ("book" ∷ "ebooks" ∷ [])
    then category_book
    else if string_eq.beq s "anime"
    then category_anime
    else if string_eq.beq s "comics"
    then category_comics
    else if is_one_of s ("games" ∷ "game" ∷ [])
    then category_game
    else if string_eq.beq s "software"
    then category_software
    else if string_eq.beq s "xxx"
    then category_xxx
    else category_all

unfoldable pub map_category_to_torznab : Category → List String
map_category_to_torznab category_movie =
    "2000" ∷ "2010" ∷ "2020" ∷ "2030" ∷ "2040" ∷ "2050" ∷ "2060" ∷ []
map_category_to_torznab category_tv =
    "5000" ∷ "5010" ∷ "5020" ∷ "5030" ∷ "5040" ∷ "5050" ∷ "5060" ∷ "5070" ∷ "5080" ∷ []
map_category_to_torznab category_audio = "3000" ∷ "3010" ∷ "3020" ∷ "3030" ∷ "3040" ∷ "3050" ∷ []
map_category_to_torznab category_book = "7000" ∷ "7010" ∷ "7020" ∷ "7030" ∷ "7040" ∷ "7050" ∷ []
map_category_to_torznab category_anime = "5070" ∷ []
map_category_to_torznab category_game =
    "4000" ∷ "4010" ∷ "4020" ∷ "4030" ∷ "4040" ∷ "4050" ∷ "4060" ∷ "4070" ∷ "4080" ∷ "4090" ∷ []
map_category_to_torznab category_software =
    "13000" ∷ "13010" ∷ "13020" ∷ "13030" ∷ "13040" ∷ "13050" ∷ []
map_category_to_torznab category_xxx =
    "6000" ∷ "6010" ∷ "6020" ∷ "6030" ∷ "6040" ∷ "6050" ∷ "6060" ∷ "6070" ∷ "6080" ∷ []
map_category_to_torznab _ = []

unfoldable pub map_torznab_to_category : String → Category
map_torznab_to_category s =
    if is_one_of s ("2000" ∷ "2010" ∷ "2020" ∷ "2030" ∷ "2040" ∷ "2050" ∷ "2060" ∷ [])
    then category_movie
    else if is_one_of s ("5000" ∷ "5010" ∷ "5020" ∷ "5030" ∷ "5040" ∷ "5050" ∷ "5060" ∷ "5080" ∷ [])
    then category_tv
    else if string_eq.beq s "5070"
    then category_anime
    else if is_one_of s ("3000" ∷ "3010" ∷ "3020" ∷ "3030" ∷ "3040" ∷ "3050" ∷ [])
    then category_audio
    else if is_one_of s ("7000" ∷ "7010" ∷ "7020" ∷ "7030" ∷ "7040" ∷ "7050" ∷ [])
    then category_book
    else if is_one_of s (
        "4000" ∷ "4010" ∷ "4020" ∷ "4030" ∷ "4040" ∷ "4050" ∷ "4060" ∷ "4070" ∷ "4080" ∷ "4090"
        ∷ [])
    then category_game
    else if is_one_of s ("13000" ∷ "13010" ∷ "13020" ∷ "13030" ∷ "13040" ∷ "13050" ∷ [])
    then category_software
    else if is_one_of s
        ("6000" ∷ "6010" ∷ "6020" ∷ "6030" ∷ "6040" ∷ "6050" ∷ "6060" ∷ "6070" ∷ "6080" ∷ [])
    then category_xxx
    else category_all

abbrev AllMapTo : Category → List String → Type 0
AllMapTo c [] = Unit
AllMapTo c (s ∷ ss) =
    ((map_torznab_to_category s ≡ c) ⊎ ((s ≡ "5070") × (c ≡ category_tv))) × AllMapTo c ss

-- Every number that `MapCategoryToTorznab` gives for a category is taken back to that category by
-- `MapTorznabToCategory`, but for the number 5070 of the category of TV shows.
pub map_torznab_to_category-map_category_to_torznab :
    (c : Category) → AllMapTo c (map_category_to_torznab c)
unfolding map_category_to_torznab map_torznab_to_category
map_torznab_to_category-map_category_to_torznab category_movie =
    (inl refl, (inl refl, (inl refl, (inl refl, (inl refl, (inl refl, (inl refl, tt)))))))
map_torznab_to_category-map_category_to_torznab category_tv = (
  inl refl,
  (
    inl refl,
    (inl refl, (inl refl, (inl refl, (inl refl, (inl refl, (inr (refl, refl), (inl refl, tt))))))),
  ),
)
map_torznab_to_category-map_category_to_torznab category_audio =
    (inl refl, (inl refl, (inl refl, (inl refl, (inl refl, (inl refl, tt))))))
map_torznab_to_category-map_category_to_torznab category_book =
    (inl refl, (inl refl, (inl refl, (inl refl, (inl refl, (inl refl, tt))))))
map_torznab_to_category-map_category_to_torznab category_anime = (inl refl, tt)
map_torznab_to_category-map_category_to_torznab category_game = (
  inl refl,
  (
    inl refl,
    (
      inl refl,
      (inl refl, (inl refl, (inl refl, (inl refl, (inl refl, (inl refl, (inl refl, tt))))))),
    ),
  ),
)
map_torznab_to_category-map_category_to_torznab category_software =
    (inl refl, (inl refl, (inl refl, (inl refl, (inl refl, (inl refl, tt))))))
map_torznab_to_category-map_category_to_torznab category_xxx = (
  inl refl,
  (
    inl refl,
    (inl refl, (inl refl, (inl refl, (inl refl, (inl refl, (inl refl, (inl refl, tt))))))),
  ),
)
map_torznab_to_category-map_category_to_torznab _ = tt
