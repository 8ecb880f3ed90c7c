-- ===== src/Mime/TableB.antt =====
-- src/libswish3/mime_types.c: the second half of `SWISH_MIME_TABLE`.
use libswish.Prelude.{List, [], ◌∷◌, Bytes, text}

abbrev pub table_b : List (Bytes × Bytes)
table_b =
    (text "oda", text "application/oda")
    ∷ (text "ogg", text "application/ogg")
    ∷ (text "pbm", text "image/x-portable-bitmap")
    ∷ (text "pdb", text "chemical/x-pdb")
    ∷ (text "pdf", text "application/pdf")
    ∷ (text "pgm", text "image/x-portable-graymap")
    ∷ (text "pgn", text "application/x-chess-pgn")
    ∷ (text "png", text "image/png")
    ∷ (text "pnm", text "image/x-portable-anymap")
    ∷ (text "ppm", text "image/x-portable-pixmap")
    ∷ (text "ppt", text "application/vnd.ms-powerpoint")
    ∷ (text "ps", text "application/postscript")
    ∷ (text "qt", text "video/quicktime")
    ∷ (text "ra", text "audio/x-pn-realaudio")
    ∷ (text "ram", text "audio/x-pn-realaudio")
    ∷ (text "ras", text "image/x-cmu-raster")
    ∷ (text "rdf", text "application/rdf+xml")
    ∷ (text "rgb", text "image/x-rgb")
    ∷ (text "rm", text "application/vnd.rn-realmedia")
    ∷ (text "roff", text "application/x-troff")
    ∷ (text "rtf", text "text/rtf")
    ∷ (text "rtx", text "text/richtext")
    ∷ (text "sgm", text "text/sgml")
    ∷ (text "sgml", text "text/sgml")
    ∷ (text "sh", text "application/x-sh")
    ∷ (text "shar", text "application/x-shar")
    ∷ (text "silo", text "model/mesh")
    ∷ (text "sit", text "application/x-stuffit")
    ∷ (text "skd", text "application/x-koan")
    ∷ (text "skm", text "application/x-koan")
    ∷ (text "skp", text "application/x-koan")
    ∷ (text "skt", text "application/x-koan")
    ∷ (text "smi", text "application/smil")
    ∷ (text "smil", text "application/smil")
    ∷ (text "snd", text "audio/basic")
    ∷ (text "so", text "application/octet-stream")
    ∷ (text "spl", text "application/x-futuresplash")
    ∷ (text "src", text "application/x-wais-source")
    ∷ (text "sv4cpio", text "application/x-sv4cpio")
    ∷ (text "sv4crc", text "application/x-sv4crc")
    ∷ (text "svg", text "image/svg+xml")
    ∷ (text "swf", text "application/x-shockwave-flash")
    ∷ (text "t", text "application/x-troff")
    ∷ (text "tar", text "application/x-tar")
    ∷ (text "tcl", text "application/x-tcl")
    ∷ (text "tex", text "application/x-tex")
    ∷ (text "texi", text "application/x-texinfo")
    ∷ (text "texinfo", text "application/x-texinfo")
    ∷ (text "tif", text "image/tiff")
    ∷ (text "tiff", text "image/tiff")
    ∷ (text "tr", text "application/x-troff")
    ∷ (text "tsv", text "text/tab-separated-values")
    ∷ (text "txt", text "text/plain")
    ∷ (text "ustar", text "application/x-ustar")
    ∷ (text "vcd", text "application/x-cdlink")
    ∷ (text "vrml", text "model/vrml")
    ∷ (text "vxml", text "application/voicexml+xml")
    ∷ (text "wav", text "audio/x-wav")
    ∷ (text "wbmp", text "image/vnd.wap.wbmp")
    ∷ (text "wbxml", text "application/vnd.wap.wbxml")
    ∷ (text "wml", text "text/vnd.wap.wml")
    ∷ (text "wmlc", text "application/vnd.wap.wmlc")
    ∷ (text "wmls", text "text/vnd.wap.wmlscript")
    ∷ (text "wmlsc", text "application/vnd.wap.wmlscriptc")
    ∷ (text "wrl", text "model/vrml")
    ∷ (text "xbm", text "image/x-xbitmap")
    ∷ (text "xht", text "application/xhtml+xml")
    ∷ (text "xhtml", text "application/xhtml+xml")
    ∷ (text "xls", text "application/vnd.ms-excel")
    ∷ (text "xml", text "application/xml")
    ∷ (text "xpm", text "image/x-xpixmap")
    ∷ (text "xsl", text "application/xml")
    ∷ (text "xslt", text "application/xslt+xml")
    ∷ (text "xul", text "application/vnd.mozilla.xul+xml")
    ∷ (text "xwd", text "image/x-xwindowdump")
    ∷ (text "xyz", text "chemical/x-xyz")
    ∷ (text "zip", text "application/zip")
    ∷ []
