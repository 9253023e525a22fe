-- ===== src/Models.antt =====
-- models/include: the records, with their checked setters, and the tables, whose methods are SQL
-- statements. JSON values are a library's: a `Json` names the calls that the program makes of it.
pub mod Article
pub mod Role
pub mod User
pub mod Articles
pub mod Roles
pub mod Users
pub mod Categories
pub mod Keywords
pub mod Tags
pub mod ArticleCategories
pub mod ArticleKeywords
pub mod ArticleTags
pub mod UserRoles
pub mod Bound
pub mod Lookup
