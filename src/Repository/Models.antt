-- ===== src/Repository/Models.antt =====
-- internal/repository/repository.go: the models.
use nexlog_server.Base.{String}

pub record Site : Type 0 where
  pub company_name : String
  pub tagline : String

pub record HeroSlide : Type 0 where
  pub title : String
  pub subtitle : String
  pub image : String
  pub button_text : String
  pub button_link : String

pub record Stat : Type 0 where
  pub icon : String
  pub value : String
  pub label : String

pub record About : Type 0 where
  pub title : String
  pub description : String
  pub image : String

pub record Service : Type 0 where
  pub title : String
  pub description : String
  pub icon : String
  pub image : String

pub record NewsItem : Type 0 where
  pub title : String
  pub date : String
  pub excerpt : String
  pub image : String

pub record Partner : Type 0 where
  pub name : String
  pub logo : String

pub record Contact : Type 0 where
  pub address : String
  pub phone : String
  pub email : String
  pub whatsapp : String
