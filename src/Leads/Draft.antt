-- ===== src/Leads/Draft.antt =====
-- The texts of the e-mails: category_phrase, city_phrase, unsubscribe_url, render_draft and
-- client_confirmation in apps/api/src/ozzb2b_api/services/leads.py.
use ozzb2b.Shared.{
  String, Option, none, some, List, [], ◌∷◌, ◌++◌, ◌==◌, nat_eq, text_eq, if◌then◌else◌, Text,
  codes, strip, is_truthy, or_empty, or_none, find,
}
use ozzb2b.Domain.{Provider}
use ozzb2b.Mailer.{OutgoingMail}
use ozzb2b.Leads.Data.{Lead, LeadsDb, Category, City, LeadSettings, unsubscribe_token, text_set}

-- `TABLE.get(key, default)` for a table of two columns
pub phrase : List (String × String) → Text → Text → Text
phrase [] key default = default
phrase ((k, v) ∷ rest) key default = if codes k == key then codes v else phrase rest key default

abbrev pub category_phrase_ru : List (String × String)
category_phrase_ru =
    ("marketplace-accounting", "бухгалтерское сопровождение продаж на маркетплейсах")
    ∷ ("accounting", "бухгалтерское обслуживание")
    ∷ ("bookkeeping", "ведение бухгалтерского учёта")
    ∷ ("tax-advisory", "налоговая консультация")
    ∷ ("payroll", "расчёт зарплаты и кадровый учёт")
    ∷ ("audit-assurance", "аудит")
    ∷ ("legal", "юридические услуги")
    ∷ ("it", "IT-подрядчик")
    ∷ ("software-development", "разработка ПО")
    ∷ []

abbrev pub city_ru : List (String × String)
city_ru =
    ("Moscow", "Москва")
    ∷ ("Saint Petersburg", "Санкт-Петербург")
    ∷ ("Novosibirsk", "Новосибирск")
    ∷ ("Yekaterinburg", "Екатеринбург")
    ∷ ("Kazan", "Казань")
    ∷ ("Nizhny Novgorod", "Нижний Новгород")
    ∷ ("Samara", "Самара")
    ∷ ("Rostov-on-Don", "Ростов-на-Дону")
    ∷ ("Krasnodar", "Краснодар")
    ∷ ("Perm", "Пермь")
    ∷ ("Voronezh", "Воронеж")
    ∷ ("Ufa", "Уфа")
    ∷ ("Chelyabinsk", "Челябинск")
    ∷ ("Tyumen", "Тюмень")
    ∷ ("Omsk", "Омск")
    ∷ []

pub category_phrase : Option Category → Text
category_phrase none = codes "подрядчик"
category_phrase (some c) = phrase category_phrase_ru c.slug c.name

pub city_phrase : Option City → Text
city_phrase none = codes "город не важен, можно удалённо"
city_phrase (some c) = phrase city_ru c.name c.name

-- `lead.category`, `lead.city`: the row that the foreign key names
pub lead_category : LeadsDb → Lead → Option Category
lead_category db lead = elim lead.category_id [
  | none ↦ none
  | some i ↦ find (λ (c : Category). c.id == i) db.categories
]

pub lead_city : LeadsDb → Lead → Option City
lead_city db lead = elim lead.city_id [
  | none ↦ none
  | some i ↦ find (λ (c : City). c.id == i) db.cities
]

-- `s.rstrip('/')`
pub drop_slashes : Text → Text
drop_slashes [] = []
drop_slashes (c ∷ s) =
    let rest = drop_slashes s in
    if c == b'/' then (if is_truthy rest then c ∷ rest else []) else c ∷ rest

-- `"\n".join(lines)`
pub join_lines : List Text → Text
join_lines [] = []
join_lines (l ∷ []) = l
join_lines (l ∷ m ∷ rest) = l ++ 10 ∷ join_lines (m ∷ rest)

module _ (cfg : LeadSettings) where
  pub unsubscribe_url : Text → Text
  unsubscribe_url email =
      drop_slashes cfg.public_site_url
      ++ (codes "/unsubscribe?"
          ++ cfg.urlencode
              ((codes "email", email) ∷ (codes "token", unsubscribe_token cfg email) ∷ []))

  pub budget_line : Option Text → List Text
  budget_line budget = if text_set budget then (codes "Бюджет: " ++ or_empty budget) ∷ [] else []

  -- subject and body
  pub render_draft : LeadsDb → Lead → Provider → Text × Text
  render_draft db lead provider =
      let need = category_phrase (lead_category db lead) in
      let found_on : Text =
        if text_set provider.website
        then or_empty provider.website
        else codes "открытых источниках" in
      let opening : List Text =
        codes "Здравствуйте!"
        ∷ []
        ∷ (codes "Пишу из ozzb2b.com — это каталог подрядчиков для бизнеса. "
            ++ (codes "К нам обратился клиент, которому нужна услуга: "
                ++ (need
                    ++ (codes ". Ваша компания подходит под запрос — мы нашли её на сайте "
                        ++ (found_on ++ codes ".")))))
        ∷ []
        ∷ codes "Суть запроса:"
        ∷ strip lead.description
        ∷ []
        ∷ (codes "Город: " ++ city_phrase (lead_city db lead))
        ∷ [] in
      let closing : List Text =
        []
        ∷ (codes "Если вам интересно, просто ответьте на это письмо — передадим контакты клиента. "
            ++ codes "Если запрос не ваш профиль, тоже напишите: больше не побеспокоим.")
        ∷ codes "Регистрироваться и платить ничего не нужно."
        ∷ []
        ∷ codes "--"
        ∷ codes "ozzb2b.com"
        ∷ (codes "Не хотите получать такие письма: " ++ unsubscribe_url (or_empty provider.email))
        ∷ [] in
      (
        codes "Заявка от клиента: " ++ need,
        join_lines (opening ++ (budget_line lead.budget ++ closing)),
      )

  -- The receipt for the client.
  pub client_confirmation : LeadsDb → Lead → OutgoingMail
  client_confirmation db lead =
      let need = category_phrase (lead_category db lead) in
      let lines : List Text =
        (codes "Здравствуйте, " ++ (lead.contact_name ++ codes "!"))
        ∷ []
        ∷ (codes "Мы получили вашу заявку на ozzb2b.com: "
            ++ (need ++ (codes ", " ++ (city_phrase (lead_city db lead) ++ codes "."))))
        ∷ []
        ∷ (codes "Сейчас подбираем подрядчиков под ваш запрос и отправляем им его описание. "
            ++ codes "Ваши контакты получат только те, кто откликнется, — они напишут вам сами.")
        ∷ []
        ∷ (codes "Подходящих подрядчиков может и не найтись. В этом случае мы тоже напишем, "
            ++ codes "чтобы вы не ждали зря.")
        ∷ []
        ∷ codes "Если заявку отправляли не вы, просто проигнорируйте это письмо."
        ∷ []
        ∷ codes "--"
        ∷ codes "ozzb2b.com"
        ∷ [] in
      record {
        to = lead.contact_email;
        subject = codes "Заявка принята — подбираем подрядчиков";
        body = join_lines lines;
        reply_to = or_none cfg.admin_notify_email;
        list_unsubscribe = none;
      }
