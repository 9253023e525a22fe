-- ===== src/Routes/Pages/Menus.antt =====
-- src/router/routes.cpp: the categories that have a page, each with its menu.
use cdragon.Prelude.{List, [], ◌∷◌, Bytes, codes}
use cdragon.Routes.Text.Utf8.{encode}

-- The articles of a page.
pub data Shelf : Type 0 where
  every : Shelf
  in_category : Bytes → Shelf

pub menu_all : Bytes
menu_all = encode (
    codes
      "\n        <div class=\"list\">\n          <a href=\"/category_page/all\"\n            ><div class=\"red-border selected-category\">Усі</div></a\n          >\n          <a href=\"/category_page/weather\"\n            ><div class=\"red-border\">Погода</div></a\n          >\n          <a href=\"/category_page/anime\"><div class=\"red-border\">Аніме</div></a>\n          <a href=\"/category_page/science\"\n            ><div class=\"red-border\">Наука</div></a\n          >\n          <a href=\"/category_page/it\"\n            ><div class=\"red-border\">Інформаційні технологїї</div></a\n          >\n          <a href=\"/category_page/community\"\n            ><div class=\"red-border\">Суспільство</div></a\n          >\n          <a href=\"/category_page/self-education\"\n            ><div class=\"red-border\">Самоосвіта</div></a\n          >\n          <a href=\"/category_page/health\"\n            ><div class=\"red-border\">Здоровʼє</div></a\n          >\n          <a href=\"/category_page/culture\"\n            ><div class=\"red-border\">Культура</div></a\n          >\n          <a href=\"/category_page/new\"><div class=\"red-border\">Новинки</div></a>\n        </div>\n        ")

pub menu_weather : Bytes
menu_weather = encode (
    codes
      "\n        <div class=\"list\">\n          <a href=\"/category_page/weather\"\n            ><div class=\"red-border selected-category\">Погода</div></a\n          >\n          <a href=\"/category_page/all\"\n            ><div class=\"red-border\">Усі</div></a\n          >\n          <a href=\"/category_page/anime\"><div class=\"red-border\">Аніме</div></a>\n          <a href=\"/category_page/science\"\n            ><div class=\"red-border\">Наука</div></a\n          >\n          <a href=\"/category_page/it\"\n            ><div class=\"red-border\">Інформаційні технологїї</div></a\n          >\n          <a href=\"/category_page/community\"\n            ><div class=\"red-border\">Суспільство</div></a\n          >\n          <a href=\"/category_page/self-education\"\n            ><div class=\"red-border\">Самоосвіта</div></a\n          >\n          <a href=\"/category_page/health\"\n            ><div class=\"red-border\">Здоровʼє</div></a\n          >\n          <a href=\"/category_page/culture\"\n            ><div class=\"red-border\">Культура</div></a\n          >\n          <a href=\"/category_page/new\"><div class=\"red-border\">Новинки</div></a>\n        </div>\n        ")

pub menu_anime : Bytes
menu_anime = encode (
    codes
      "\n        <div class=\"list\">\n        <a href=\"/category_page/anime\"><div class=\"red-border selected-category\">Аніме</div></a>\n          <a href=\"/category_page/all\"\n            ><div class=\"red-border\">Усі</div></a\n          >\n          <a href=\"/category_page/weather\"\n            ><div class=\"red-border\">Погода</div></a\n          >\n          <a href=\"/category_page/science\"\n            ><div class=\"red-border\">Наука</div></a\n          >\n          <a href=\"/category_page/it\"\n            ><div class=\"red-border\">Інформаційні технологїї</div></a\n          >\n          <a href=\"/category_page/community\"\n            ><div class=\"red-border\">Суспільство</div></a\n          >\n          <a href=\"/category_page/self-education\"\n            ><div class=\"red-border\">Самоосвіта</div></a\n          >\n          <a href=\"/category_page/health\"\n            ><div class=\"red-border\">Здоровʼє</div></a\n          >\n          <a href=\"/category_page/culture\"\n            ><div class=\"red-border\">Культура</div></a\n          >\n          <a href=\"/category_page/new\"><div class=\"red-border\">Новинки</div></a>\n        </div>\n        ")

pub menu_science : Bytes
menu_science = encode (
    codes
      "\n        <div class=\"list\">\n        <a href=\"/category_page/science\"\n            ><div class=\"red-border selected-category\">Наука</div></a\n          >\n          <a href=\"/category_page/all\"\n            ><div class=\"red-border\">Усі</div></a\n          >\n          <a href=\"/category_page/weather\"\n            ><div class=\"red-border\">Погода</div></a\n          >\n          <a href=\"/category_page/anime\"><div class=\"red-border\">Аніме</div></a>\n          <a href=\"/category_page/it\"\n            ><div class=\"red-border\">Інформаційні технологїї</div></a\n          >\n          <a href=\"/category_page/community\"\n            ><div class=\"red-border\">Суспільство</div></a\n          >\n          <a href=\"/category_page/self-education\"\n            ><div class=\"red-border\">Самоосвіта</div></a\n          >\n          <a href=\"/category_page/health\"\n            ><div class=\"red-border\">Здоровʼє</div></a\n          >\n          <a href=\"/category_page/culture\"\n            ><div class=\"red-border\">Культура</div></a\n          >\n          <a href=\"/category_page/new\"><div class=\"red-border\">Новинки</div></a>\n        </div>\n        ")

pub menu_it : Bytes
menu_it = encode (
    codes
      "\n        <div class=\"list\">\n          <a href=\"/category_page/it\"\n            ><div class=\"red-border selected-category\">Інформаційні технологїї</div></a\n          >\n          <a href=\"/category_page/all\"\n            ><div class=\"red-border\">Усі</div></a\n          >\n          <a href=\"/category_page/weather\"\n            ><div class=\"red-border\">Погода</div></a\n          >\n          <a href=\"/category_page/anime\"><div class=\"red-border\">Аніме</div></a>\n          <a href=\"/category_page/science\"\n            ><div class=\"red-border\">Наука</div></a\n          >\n          <a href=\"/category_page/community\"\n            ><div class=\"red-border\">Суспільство</div></a\n          >\n          <a href=\"/category_page/self-education\"\n            ><div class=\"red-border\">Самоосвіта</div></a\n          >\n          <a href=\"/category_page/health\"\n            ><div class=\"red-border\">Здоровʼє</div></a\n          >\n          <a href=\"/category_page/culture\"\n            ><div class=\"red-border\">Культура</div></a\n          >\n          <a href=\"/category_page/new\"><div class=\"red-border\">Новинки</div></a>\n        </div>\n        ")

pub menu_community : Bytes
menu_community = encode (
    codes
      "\n        <div class=\"list\">\n        <a href=\"/category_page/community\"\n            ><div class=\"red-border selected-category\">Суспільство</div></a\n          >\n          <a href=\"/category_page/all\"\n            ><div class=\"red-border\">Усі</div></a\n          >\n          <a href=\"/category_page/weather\"\n            ><div class=\"red-border\">Погода</div></a\n          >\n          <a href=\"/category_page/anime\"><div class=\"red-border\">Аніме</div></a>\n          <a href=\"/category_page/science\"\n            ><div class=\"red-border\">Наука</div></a\n          >\n          <a href=\"/category_page/it\"\n            ><div class=\"red-border\">Інформаційні технологїї</div></a\n          >\n          <a href=\"/category_page/self-education\"\n            ><div class=\"red-border\">Самоосвіта</div></a\n          >\n          <a href=\"/category_page/health\"\n            ><div class=\"red-border\">Здоровʼє</div></a\n          >\n          <a href=\"/category_page/culture\"\n            ><div class=\"red-border\">Культура</div></a\n          >\n          <a href=\"/category_page/new\"><div class=\"red-border\">Новинки</div></a>\n        </div>\n        ")

pub menu_self_education : Bytes
menu_self_education = encode (
    codes
      "\n        <div class=\"list\">\n        <a href=\"/category_page/self-education\"\n            ><div class=\"red-border selected-category\">Самоосвіта</div></a\n          >\n          <a href=\"/category_page/all\"\n            ><div class=\"red-border\">Усі</div></a\n          >\n          <a href=\"/category_page/weather\"\n            ><div class=\"red-border\">Погода</div></a\n          >\n          <a href=\"/category_page/anime\"><div class=\"red-border\">Аніме</div></a>\n          <a href=\"/category_page/science\"\n            ><div class=\"red-border\">Наука</div></a\n          >\n          <a href=\"/category_page/it\"\n            ><div class=\"red-border\">Інформаційні технологїї</div></a\n          >\n          <a href=\"/category_page/community\"\n            ><div class=\"red-border\">Суспільство</div></a\n          >\n          <a href=\"/category_page/health\"\n            ><div class=\"red-border\">Здоровʼє</div></a\n          >\n          <a href=\"/category_page/culture\"\n            ><div class=\"red-border\">Культура</div></a\n          >\n          <a href=\"/category_page/new\"><div class=\"red-border\">Новинки</div></a>\n        </div>\n        ")

pub menu_health : Bytes
menu_health = encode (
    codes
      "\n        <div class=\"list\">\n        <a href=\"/category_page/health\"\n            ><div class=\"red-border selected-category\">Здоровʼє</div></a\n          >\n          <a href=\"/category_page/all\"\n            ><div class=\"red-border\">Усі</div></a\n          >\n          <a href=\"/category_page/weather\"\n            ><div class=\"red-border\">Погода</div></a\n          >\n          <a href=\"/category_page/anime\"><div class=\"red-border\">Аніме</div></a>\n          <a href=\"/category_page/science\"\n            ><div class=\"red-border\">Наука</div></a\n          >\n          <a href=\"/category_page/it\"\n            ><div class=\"red-border\">Інформаційні технологїї</div></a\n          >\n          <a href=\"/category_page/community\"\n            ><div class=\"red-border\">Суспільство</div></a\n          >\n          <a href=\"/category_page/self-education\"\n            ><div class=\"red-border\">Самоосвіта</div></a\n          >\n          <a href=\"/category_page/culture\"\n            ><div class=\"red-border\">Культура</div></a\n          >\n          <a href=\"/category_page/new\"><div class=\"red-border\">Новинки</div></a>\n        </div>\n        ")

pub menu_culture : Bytes
menu_culture = encode (
    codes
      "\n        <div class=\"list\">\n        <a href=\"/category_page/culture\"\n            ><div class=\"red-border selected-category\">Культура</div></a\n          >\n          <a href=\"/category_page/all\"\n            ><div class=\"red-border\">Усі</div></a\n          >\n          <a href=\"/category_page/weather\"\n            ><div class=\"red-border\">Погода</div></a\n          >\n          <a href=\"/category_page/anime\"><div class=\"red-border\">Аніме</div></a>\n          <a href=\"/category_page/science\"\n            ><div class=\"red-border\">Наука</div></a\n          >\n          <a href=\"/category_page/it\"\n            ><div class=\"red-border\">Інформаційні технологїї</div></a\n          >\n          <a href=\"/category_page/community\"\n            ><div class=\"red-border\">Суспільство</div></a\n          >\n          <a href=\"/category_page/self-education\"\n            ><div class=\"red-border\">Самоосвіта</div></a\n          >\n          <a href=\"/category_page/health\"\n            ><div class=\"red-border\">Здоровʼє</div></a\n          >\n          <a href=\"/category_page/new\"><div class=\"red-border\">Новинки</div></a>\n        </div>\n        ")

-- The names that the path is compared with, in the order of the tests.
unfoldable pub shelves : List (Bytes × Shelf × Bytes)
unfolding encode
shelves =
    (codes "all", every, menu_all)
    ∷ (codes "weather", in_category (encode (codes "Погода")), menu_weather)
    ∷ (codes "anime", in_category (encode (codes "Аніме")), menu_anime)
    ∷ (codes "science", in_category (encode (codes "Наука")), menu_science)
    ∷ (codes "it", in_category (encode (codes "Інформаційні технології")), menu_it)
    ∷ (codes "community", in_category (encode (codes "Суспільство")), menu_community)
    ∷ (codes "self-education", in_category (encode (codes "Самоосвіта")), menu_self_education)
    ∷ (codes "health", in_category (encode (codes "Здоров’я")), menu_health)
    ∷ (codes "culture", in_category (encode (codes "Культура")), menu_culture)
    ∷ []
