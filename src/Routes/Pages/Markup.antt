-- ===== src/Routes/Pages/Markup.antt =====
-- src/router/routes.cpp: the markup of the home page and of the category pages. A scope shows one
-- to five articles in small and big columns; an article is named by its distance from the loop's index
-- when the scope begins.
use cdragon.Prelude.{ℕ, List, [], ◌∷◌, Bytes, codes}

-- What is put into the stream: markup, or a field of an article.
pub data Piece : Type 0 where
  markup : Bytes → Piece
  id slug title description : ℕ → Piece

pub mini_scope : Bytes
mini_scope =
    codes
      "\n        <div class=\"scope\">\n          <div class=\"bottom\">\n            <div class=\"mini-column\">\n              <a href=\"/article_read_page/"

pub first_mini_image : Bytes
first_mini_image =
    codes
      "\"\n                ><div class=\"bild-bord\">\n                  <div class=\"image-container\">\n                    <img src=\"/images/"

pub image_title : Bytes
image_title =
    codes
      "\" class=\"image\" />\n                  </div>\n\n                  <div class=\"title\">"

pub title_description : Bytes
title_description = codes "</div>\n\n                  <div class=\"description\">"

pub next_mini : Bytes
next_mini =
    codes
      "</div>\n                </div></a\n              >\n              <a href=\"/article_read_page/"

pub mini_image : Bytes
mini_image =
    codes
      "\">\n                <div class=\"bild-bord\">\n                  <div class=\"image-container\">\n                    <img src=\"/images/"

pub mini_to_big : Bytes
mini_to_big =
    codes
      "</div>\n                </div></a\n              >\n            </div>\n\n            <div class=\"big-column\">\n              <a href=\"/article_read_page/"

pub big_title : Bytes
big_title =
    codes "\">\n                <div class=\"bild-bord\">\n                  <div class=\"title\">"

pub big_image : Bytes
big_image =
    codes
      "</div>\n\n                  <div class=\"image-container\">\n                    <img src=\"/images/"

pub big_to_mini_spaced : Bytes
big_to_mini_spaced =
    codes
      "\" class=\"image\" />\n                  </div>\n                </div>\n              </a>\n            </div>\n\n            <div class=\"mini-column\">\n              <a href=\"/article_read_page/"

pub next_mini_spaced : Bytes
next_mini_spaced =
    codes
      "</div>\n                </div></a\n              >\n\n              <a href=\"/article_read_page/"

pub end_mini : Bytes
end_mini =
    codes
      "</div>\n                </div></a\n              >\n            </div>\n          </div>\n        </div>\n              "

pub end_big : Bytes
end_big =
    codes
      "\" class=\"image\" />\n                  </div>\n                </div>\n              </a>\n            </div>\n          </div>\n        </div>\n              "

pub big_scope : Bytes
big_scope =
    codes
      "\n        <div class=\"scope\">\n          <div class=\"bottom\">\n          <div class=\"big-column\">\n              <a href=\"/article_read_page/"

pub big_to_mini : Bytes
big_to_mini =
    codes
      "\" class=\"image\" />\n                  </div>\n                </div>\n              </a>\n            </div>\n            <div class=\"mini-column\">\n              <a href=\"/article_read_page/"

pub mini_to_mini : Bytes
mini_to_mini =
    codes
      "</div>\n                </div></a\n              >\n            </div>\n\n            <div class=\"mini-column\">\n              <a href=\"/article_read_page/"

unfoldable pub first_five : List Piece
first_five =
    markup mini_scope
    ∷ id 0
    ∷ markup first_mini_image
    ∷ slug 0
    ∷ markup image_title
    ∷ title 0
    ∷ markup title_description
    ∷ description 0
    ∷ markup next_mini
    ∷ id 1
    ∷ markup mini_image
    ∷ slug 1
    ∷ markup image_title
    ∷ title 1
    ∷ markup title_description
    ∷ description 1
    ∷ markup mini_to_big
    ∷ id 2
    ∷ markup big_title
    ∷ title 2
    ∷ markup title_description
    ∷ description 2
    ∷ markup big_image
    ∷ slug 2
    ∷ markup big_to_mini_spaced
    ∷ id 3
    ∷ markup mini_image
    ∷ slug 3
    ∷ markup image_title
    ∷ title 3
    ∷ markup title_description
    ∷ description 3
    ∷ markup next_mini_spaced
    ∷ id 4
    ∷ markup mini_image
    ∷ slug 4
    ∷ markup image_title
    ∷ title 4
    ∷ markup title_description
    ∷ description 4
    ∷ markup end_mini
    ∷ []

unfoldable pub first_four : List Piece
first_four =
    markup mini_scope
    ∷ id 0
    ∷ markup first_mini_image
    ∷ slug 0
    ∷ markup image_title
    ∷ title 0
    ∷ markup title_description
    ∷ description 0
    ∷ markup next_mini
    ∷ id 1
    ∷ markup mini_image
    ∷ slug 1
    ∷ markup image_title
    ∷ title 1
    ∷ markup title_description
    ∷ description 1
    ∷ markup mini_to_big
    ∷ id 2
    ∷ markup big_title
    ∷ title 2
    ∷ markup title_description
    ∷ description 2
    ∷ markup big_image
    ∷ slug 2
    ∷ markup big_to_mini_spaced
    ∷ id 3
    ∷ markup mini_image
    ∷ slug 3
    ∷ markup image_title
    ∷ title 3
    ∷ markup title_description
    ∷ description 3
    ∷ markup end_mini
    ∷ []

unfoldable pub first_three : List Piece
first_three =
    markup mini_scope
    ∷ id 0
    ∷ markup first_mini_image
    ∷ slug 0
    ∷ markup image_title
    ∷ title 0
    ∷ markup title_description
    ∷ description 0
    ∷ markup next_mini
    ∷ id 1
    ∷ markup mini_image
    ∷ slug 1
    ∷ markup image_title
    ∷ title 1
    ∷ markup title_description
    ∷ description 1
    ∷ markup mini_to_big
    ∷ id 2
    ∷ markup big_title
    ∷ title 2
    ∷ markup title_description
    ∷ description 2
    ∷ markup big_image
    ∷ slug 2
    ∷ markup end_big
    ∷ []

unfoldable pub first_two : List Piece
first_two =
    markup mini_scope
    ∷ id 0
    ∷ markup first_mini_image
    ∷ slug 0
    ∷ markup image_title
    ∷ title 0
    ∷ markup title_description
    ∷ description 0
    ∷ markup next_mini
    ∷ id 1
    ∷ markup mini_image
    ∷ slug 1
    ∷ markup image_title
    ∷ title 1
    ∷ markup title_description
    ∷ description 1
    ∷ markup end_mini
    ∷ []

unfoldable pub first_one : List Piece
first_one =
    markup mini_scope
    ∷ id 0
    ∷ markup first_mini_image
    ∷ slug 0
    ∷ markup image_title
    ∷ title 0
    ∷ markup title_description
    ∷ description 0
    ∷ markup end_mini
    ∷ []

unfoldable pub second_five : List Piece
second_five =
    markup big_scope
    ∷ id 0
    ∷ markup big_title
    ∷ title 0
    ∷ markup title_description
    ∷ description 0
    ∷ markup big_image
    ∷ slug 0
    ∷ markup big_to_mini
    ∷ id 1
    ∷ markup first_mini_image
    ∷ slug 1
    ∷ markup image_title
    ∷ title 1
    ∷ markup title_description
    ∷ description 1
    ∷ markup next_mini
    ∷ id 2
    ∷ markup mini_image
    ∷ slug 2
    ∷ markup image_title
    ∷ title 2
    ∷ markup title_description
    ∷ description 2
    ∷ markup mini_to_mini
    ∷ id 3
    ∷ markup mini_image
    ∷ slug 3
    ∷ markup image_title
    ∷ title 3
    ∷ markup title_description
    ∷ description 3
    ∷ markup next_mini_spaced
    ∷ id 4
    ∷ markup mini_image
    ∷ slug 4
    ∷ markup image_title
    ∷ title 4
    ∷ markup title_description
    ∷ description 4
    ∷ markup end_mini
    ∷ []

unfoldable pub second_four : List Piece
second_four =
    markup big_scope
    ∷ id 0
    ∷ markup big_title
    ∷ title 0
    ∷ markup title_description
    ∷ description 0
    ∷ markup big_image
    ∷ slug 0
    ∷ markup big_to_mini
    ∷ id 1
    ∷ markup first_mini_image
    ∷ slug 1
    ∷ markup image_title
    ∷ title 1
    ∷ markup title_description
    ∷ description 1
    ∷ markup next_mini
    ∷ id 2
    ∷ markup mini_image
    ∷ slug 2
    ∷ markup image_title
    ∷ title 2
    ∷ markup title_description
    ∷ description 2
    ∷ markup mini_to_mini
    ∷ id 3
    ∷ markup mini_image
    ∷ slug 3
    ∷ markup image_title
    ∷ title 3
    ∷ markup title_description
    ∷ description 3
    ∷ markup end_mini
    ∷ []

unfoldable pub second_three : List Piece
second_three =
    markup big_scope
    ∷ id 1
    ∷ markup big_title
    ∷ title 1
    ∷ markup title_description
    ∷ description 1
    ∷ markup big_image
    ∷ slug 1
    ∷ markup big_to_mini
    ∷ id 2
    ∷ markup first_mini_image
    ∷ slug 2
    ∷ markup image_title
    ∷ title 2
    ∷ markup title_description
    ∷ description 2
    ∷ markup next_mini
    ∷ id 3
    ∷ markup mini_image
    ∷ slug 3
    ∷ markup image_title
    ∷ title 3
    ∷ markup title_description
    ∷ description 3
    ∷ markup end_mini
    ∷ []

unfoldable pub second_two : List Piece
second_two =
    markup mini_scope
    ∷ id 1
    ∷ markup first_mini_image
    ∷ slug 1
    ∷ markup image_title
    ∷ title 1
    ∷ markup title_description
    ∷ description 1
    ∷ markup next_mini
    ∷ id 2
    ∷ markup mini_image
    ∷ slug 2
    ∷ markup image_title
    ∷ title 2
    ∷ markup title_description
    ∷ description 2
    ∷ markup end_mini
    ∷ []

unfoldable pub third_five : List Piece
third_five =
    markup mini_scope
    ∷ id 0
    ∷ markup first_mini_image
    ∷ slug 0
    ∷ markup image_title
    ∷ title 0
    ∷ markup title_description
    ∷ description 0
    ∷ markup next_mini
    ∷ id 1
    ∷ markup mini_image
    ∷ slug 1
    ∷ markup image_title
    ∷ title 1
    ∷ markup title_description
    ∷ description 1
    ∷ markup mini_to_mini
    ∷ id 2
    ∷ markup mini_image
    ∷ slug 2
    ∷ markup image_title
    ∷ title 2
    ∷ markup title_description
    ∷ description 2
    ∷ markup next_mini_spaced
    ∷ id 3
    ∷ markup mini_image
    ∷ slug 3
    ∷ markup image_title
    ∷ title 3
    ∷ markup title_description
    ∷ description 3
    ∷ markup mini_to_big
    ∷ id 4
    ∷ markup big_title
    ∷ title 4
    ∷ markup title_description
    ∷ description 4
    ∷ markup big_image
    ∷ slug 4
    ∷ markup end_big
    ∷ []

unfoldable pub third_four : List Piece
third_four =
    markup mini_scope
    ∷ id 0
    ∷ markup first_mini_image
    ∷ slug 0
    ∷ markup image_title
    ∷ title 0
    ∷ markup title_description
    ∷ description 0
    ∷ markup next_mini
    ∷ id 1
    ∷ markup mini_image
    ∷ slug 1
    ∷ markup image_title
    ∷ title 1
    ∷ markup title_description
    ∷ description 1
    ∷ markup mini_to_mini
    ∷ id 2
    ∷ markup mini_image
    ∷ slug 2
    ∷ markup image_title
    ∷ title 2
    ∷ markup title_description
    ∷ description 2
    ∷ markup mini_to_big
    ∷ id 3
    ∷ markup big_title
    ∷ title 3
    ∷ markup title_description
    ∷ description 3
    ∷ markup big_image
    ∷ slug 3
    ∷ markup end_big
    ∷ []
