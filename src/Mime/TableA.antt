-- ===== src/Mime/TableA.antt =====
-- src/libswish3/mime_types.c: the first half of `SWISH_MIME_TABLE`.
use libswish.Prelude.{List, [], ◌∷◌, Bytes, text}

abbrev pub table_a : List (Bytes × Bytes)
table_a =
    (text "ai", text "application/postscript")
    ∷ (text "aif", text "audio/x-aiff")
    ∷ (text "aifc", text "audio/x-aiff")
    ∷ (text "aiff", text "audio/x-aiff")
    ∷ (text "asc", text "text/plain")
    ∷ (text "au", text "audio/basic")
    ∷ (text "avi", text "video/x-msvideo")
    ∷ (text "bcpio", text "application/x-bcpio")
    ∷ (text "bin", text "application/octet-stream")
    ∷ (text "bmp", text "image/bmp")
    ∷ (text "cdf", text "application/x-netcdf")
    ∷ (text "cgm", text "image/cgm")
    ∷ (text "class", text "application/octet-stream")
    ∷ (text "cpio", text "application/x-cpio")
    ∷ (text "cpt", text "application/mac-compactpro")
    ∷ (text "csh", text "application/x-csh")
    ∷ (text "css", text "text/css")
    ∷ (text "dcr", text "application/x-director")
    ∷ (text "dir", text "application/x-director")
    ∷ (text "djv", text "image/vnd.djvu")
    ∷ (text "djvu", text "image/vnd.djvu")
    ∷ (text "dll", text "application/octet-stream")
    ∷ (text "dmg", text "application/octet-stream")
    ∷ (text "dms", text "application/octet-stream")
    ∷ (text "doc", text "application/msword")
    ∷ (text "dtd", text "application/xml-dtd")
    ∷ (text "dvi", text "application/x-dvi")
    ∷ (text "dxr", text "application/x-director")
    ∷ (text "eps", text "application/postscript")
    ∷ (text "etx", text "text/x-setext")
    ∷ (text "exe", text "application/octet-stream")
    ∷ (text "ez", text "application/andrew-inset")
    ∷ (text "gif", text "image/gif")
    ∷ (text "gram", text "application/srgs")
    ∷ (text "grxml", text "application/srgs+xml")
    ∷ (text "gtar", text "application/x-gtar")
    ∷ (text "gz", text "application/x-gzip")
    ∷ (text "hdf", text "application/x-hdf")
    ∷ (text "hqx", text "application/mac-binhex40")
    ∷ (text "htm", text "text/html")
    ∷ (text "html", text "text/html")
    ∷ (text "ice", text "x-conference/x-cooltalk")
    ∷ (text "ico", text "image/x-icon")
    ∷ (text "ics", text "text/calendar")
    ∷ (text "ief", text "image/ief")
    ∷ (text "ifb", text "text/calendar")
    ∷ (text "iges", text "model/iges")
    ∷ (text "igs", text "model/iges")
    ∷ (text "jpe", text "image/jpeg")
    ∷ (text "jpeg", text "image/jpeg")
    ∷ (text "jpg", text "image/jpeg")
    ∷ (text "js", text "application/x-javascript")
    ∷ (text "kar", text "audio/midi")
    ∷ (text "latex", text "application/x-latex")
    ∷ (text "lha", text "application/octet-stream")
    ∷ (text "lzh", text "application/octet-stream")
    ∷ (text "m3u", text "audio/x-mpegurl")
    ∷ (text "m4u", text "video/vnd.mpegurl")
    ∷ (text "man", text "application/x-troff-man")
    ∷ (text "mathml", text "application/mathml+xml")
    ∷ (text "me", text "application/x-troff-me")
    ∷ (text "mesh", text "model/mesh")
    ∷ (text "mid", text "audio/midi")
    ∷ (text "midi", text "audio/midi")
    ∷ (text "mif", text "application/vnd.mif")
    ∷ (text "mov", text "video/quicktime")
    ∷ (text "movie", text "video/x-sgi-movie")
    ∷ (text "mp2", text "audio/mpeg")
    ∷ (text "mp3", text "audio/mpeg")
    ∷ (text "mpe", text "video/mpeg")
    ∷ (text "mpeg", text "video/mpeg")
    ∷ (text "mpg", text "video/mpeg")
    ∷ (text "mpga", text "audio/mpeg")
    ∷ (text "ms", text "application/x-troff-ms")
    ∷ (text "msh", text "model/mesh")
    ∷ (text "mxu", text "video/vnd.mpegurl")
    ∷ (text "nc", text "application/x-netcdf")
    ∷ []
